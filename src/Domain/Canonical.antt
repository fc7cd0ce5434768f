-- ===== src/Domain/Canonical.antt =====
-- packages/domain/src/print-settings.ts: the canonical text of a manifest. Values are those that
-- `JSON.stringify` tells apart; the text of a number or of a string is a parameter.
use kiosk_project.Base.{
  ℕ, Bool, true, false, not, List, [], ◌∷◌, ◌++◌, codes, if◌then◌else◌, ◌==◌, ltb, map, ◌≡◌, refl,
}
use kiosk_project.Base.Int.{ℤ}
use kiosk_project.Base.Sorting.{sort_by, insert_by}
use kiosk_project.Domain.PageRanges.{join_commas}

mutual
  pub data Json : Type 0 where
    null : Json
    boolean : Bool → Json
    number : ℤ → Json
    text : List ℕ → Json
    array : Items → Json
    object : Entries → Json

  pub data Items : Type 0 where
    no_items : Items
    item : Json → Items → Items

  -- The entries whose value is not `undefined`, or is.
  pub data Entries : Type 0 where
    no_entries : Entries
    entry : List ℕ → Json → Entries → Entries
    undefined_entry : List ℕ → Entries → Entries

-- `left < right` on texts, by code units.
pub text_less : List ℕ → List ℕ → Bool
text_less [] [] = false
text_less [] (d ∷ ds) = true
text_less (c ∷ cs) [] = false
text_less (c ∷ cs) (d ∷ ds) = if c == d then text_less cs ds else ltb c d

pub key_first : List ℕ × List ℕ → List ℕ × List ℕ → Bool
unfolding text_less
key_first left right = not (text_less right.0 left.0)

module _ (number_text : ℤ → List ℕ) (quoted : List ℕ → List ℕ) where
  pub entry_text : List ℕ × List ℕ → List ℕ
  entry_text (key, value) = quoted key ++ codes ":" ++ value

  -- The value of each entry is printed before the entries are sorted, which only reads the keys.
  mutual
    unfolding key_first entry_text

    pub canonical_json : Json → List ℕ
    canonical_json null = codes "null"
    canonical_json (boolean true) = codes "true"
    canonical_json (boolean false) = codes "false"
    canonical_json (number n) = number_text n
    canonical_json (text s) = quoted s
    canonical_json (array items) = codes "[" ++ join_commas (canonical_items items) ++ codes "]"
    canonical_json (object entries) =
        codes "{"
        ++ join_commas (map entry_text (sort_by key_first (canonical_entries entries)))
        ++ codes "}"

    pub canonical_items : Items → List (List ℕ)
    canonical_items no_items = []
    canonical_items (item value items) = canonical_json value ∷ canonical_items items

    pub canonical_entries : Entries → List (List ℕ × List ℕ)
    canonical_entries no_entries = []
    canonical_entries (entry key value entries) =
        (key, canonical_json value) ∷ canonical_entries entries
    canonical_entries (undefined_entry key entries) = canonical_entries entries

-- Keys are printed in order, whatever the order in which the object was built.
two_orders :
    canonical_json
      (λ n. codes "0")
      (λ s. s)
      (object (entry (codes "b") null (entry (codes "a") (boolean true) no_entries)))
    ≡ canonical_json
        (λ n. codes "0")
        (λ s. s)
        (object (entry (codes "a") (boolean true) (entry (codes "b") null no_entries)))
unfolding canonical_json sort_by insert_by
two_orders = refl
