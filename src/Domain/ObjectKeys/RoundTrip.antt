-- ===== src/Domain/ObjectKeys/RoundTrip.antt =====
-- Keys lead back to their session, so a sweep of one session meets no other session's objects.
use kiosk_project.Base.{
  drop-append, ℕ, ◌≡◌, refl, ◌∙◌, ap, sym, Bool, true, false, not, some, List, [], ◌∷◌, ◌++◌, map,
  arith, ok, ◌==◌, length, drop, starts_with, matches_classes, inl, inr, Bool-cases, find, ==_iff,
  subst, all, and_true,
}
use mathlib.Core.List.Memᴰ.{head, tail}
use mathlib.Core.List.{Memᴰ, append_assoc}
use kiosk_project.Domain.ObjectKeys.{
  session_object_roots, slash, session_id_classes, is_session_id, to_lower_case, prefix_under,
  session_object_prefixes, before_slash, session_id_after, session_id_from_object_key,
}

-- No class of the list lets the character through.
abbrev Refuses : ℕ → List (ℕ → Bool) → Type 0
Refuses c ps = all (λ p. not (p c)) ps ≡ true

classes_refuse_slash : Refuses slash session_id_classes
unfolding session_id_classes
classes_refuse_slash = refl

ne_of_refused : (p : ℕ → Bool) (c d : ℕ) → not (p d) ≡ true → p c ≡ true → (c == d) ≡ false
ne_of_refused p c d n h = elim (Bool-cases (c == d)) [
  | inr e ↦ e
  | inl e ↦ absurd (not_both (p c) h (subst (λ x. not (p x) ≡ true) (sym ((==_iff c d).0 e)) n))
]
  where
    not_both : (b : Bool) → b ≡ true → not b ≡ true → ⊥
    not_both true h n = cc
    not_both false h n = cc

-- A text whose places all refuse the slash is what stands before the next slash.
before_slash-append :
    (ps : List (ℕ → Bool)) (text rest : List ℕ)
    → Refuses slash ps
    → matches_classes ps text ≡ true
    → before_slash (text ++ slash ∷ rest) ≡ text
unfolding before_slash
before_slash-append [] [] rest n m = refl
before_slash-append [] (c ∷ text) rest n m = cc
before_slash-append (p ∷ ps) [] rest n m = cc
before_slash-append (p ∷ ps) (c ∷ text) rest n m =
    let (n0, n1) = and_true (not (p slash)) _ n in
    let (m0, m1) = and_true (p c) _ m in
    rw (ne_of_refused p c slash n0 m0) (ap (◌∷◌ c) (before_slash-append ps text rest n1 m1))

session_id_after_prefix :
    (id rest : List ℕ) → is_session_id id ≡ true → session_id_after (id ++ slash ∷ rest) ≡ some id
unfolding session_id_after is_session_id
session_id_after_prefix id rest h =
    rw (before_slash-append session_id_classes id rest classes_refuse_slash h, h)

-- Which root a key is found under, when it begins with that root.
find_root :
    (root rest : List ℕ)
    → Memᴰ root session_object_roots
    → find (starts_with (root ++ rest)) session_object_roots ≡ some root
unfolding session_object_roots
find_root root rest (head e) = rw e
find_root root rest (tail (head e)) = rw e
find_root root rest (tail (tail (head e))) = rw e
find_root root rest (tail (tail (tail m))) = elim m [ ]

key_under_root :
    (session_id root name : List ℕ)
    → is_session_id (to_lower_case session_id) ≡ true
    → Memᴰ root session_object_roots
    → session_id_from_object_key (prefix_under session_id root ++ name)
      ≡ some (to_lower_case session_id)
unfolding session_id_from_object_key prefix_under
key_under_root session_id root name h m =
    let id : List ℕ = to_lower_case session_id in
    let shape : (root ++ (id ++ slash ∷ [])) ++ name ≡ root ++ (id ++ slash ∷ name) =
      append_assoc root (id ++ slash ∷ []) name
      ∙ ap (◌++◌ root) (append_assoc id (slash ∷ []) name) in
    rw (shape, find_root root (id ++ slash ∷ name) m, drop-append root (id ++ slash ∷ name))
      (session_id_after_prefix id name h)

mem_map :
    {A B : Type 0} (f : A → B) (b : B) (xs : List A)
    → Memᴰ b (map f xs)
    → (a : A) × Memᴰ a xs × (b ≡ f a)
mem_map f b [] m = elim m [ ]
mem_map f b (x ∷ xs) (head e) = (x, head refl, e)
mem_map f b (x ∷ xs) (tail m) = let (a, ma, e) = mem_map f b xs m in (a, tail ma, e)

-- What the prefixes are, and that the identifier was valid.
session_object_prefixes_ok :
    (session_id : List ℕ) (prefixes : List (List ℕ))
    → session_object_prefixes session_id ≡ ok prefixes
    → (is_session_id (to_lower_case session_id) ≡ true)
      × (map (prefix_under session_id) session_object_roots ≡ prefixes)
unfolding session_object_prefixes
session_object_prefixes_ok session_id prefixes e = ground arith

-- The key of an object, with any name under the prefix, leads back to the session that the prefix
-- was made for: for each prefix that the sweep of a session is given, and anything that follows it.
pub session_id_from_object_key-prefix :
    (session_id : List ℕ) (prefixes : List (List ℕ)) (prefix name : List ℕ)
    → session_object_prefixes session_id ≡ ok prefixes
    → Memᴰ prefix prefixes
    → session_id_from_object_key (prefix ++ name) ≡ some (to_lower_case session_id)
session_id_from_object_key-prefix session_id prefixes prefix name e m =
    let (valid, same) = session_object_prefixes_ok session_id prefixes e in
    let (root, at, shape) =
      mem_map (prefix_under session_id) prefix session_object_roots
        (subst (Memᴰ prefix) (sym same) m) in
    rw shape (key_under_root session_id root name valid at)

starts_with-split :
    (key prefix : List ℕ) → starts_with key prefix ≡ true → prefix ++ drop (length prefix) key ≡ key
starts_with-split key [] h = refl
starts_with-split [] (p ∷ prefix) h = cc
starts_with-split (c ∷ key) (p ∷ prefix) h =
    ground (arith, ==_iff c p, starts_with-split key prefix)

key_owner :
    (a : List ℕ) (xs : List (List ℕ)) (p key : List ℕ)
    → session_object_prefixes a ≡ ok xs
    → Memᴰ p xs
    → starts_with key p ≡ true
    → session_id_from_object_key key ≡ some (to_lower_case a)
key_owner a xs p key e m h =
    subst (λ k. session_id_from_object_key k ≡ some (to_lower_case a)) (starts_with-split key p h)
      (session_id_from_object_key-prefix a xs p (drop (length p) key) e m)

-- Sweeps are disjoint: a key that begins with a prefix of one session's sweep and with a prefix of
-- another's belongs to one and the same session (up to letter case), so a bulk delete by the
-- prefixes of a session never meets an object of a different session.
pub sweeps_disjoint :
    (a b : List ℕ) (xs ys : List (List ℕ)) (p q key : List ℕ)
    → session_object_prefixes a ≡ ok xs
    → session_object_prefixes b ≡ ok ys
    → Memᴰ p xs
    → Memᴰ q ys
    → starts_with key p ≡ true
    → starts_with key q ≡ true
    → to_lower_case a ≡ to_lower_case b
sweeps_disjoint a b xs ys p q key ea eb ma mb hp hq =
    cc (key_owner a xs p key ea ma hp, key_owner b ys q key eb mb hq)
