-- ===== src/Nodeagent/Images/Refs.antt =====
-- What splitImageRef makes of a repository joined to a tag or a digest.
use opencoda.Prelude.{
  ℕ, suc, ◌<◌, ◌≡◌, refl, ap, ◌⊎◌, inl, inr, false, none, some, [], ◌∷◌, ◌++◌, arith, leb, nat_beq,
  nat_beq_iff, Bool-cases, length, All-append, NoByte, Text,
}
use opencoda.Nodeagent.Images.{last_index, take, cut_at, split_image_ref}

last_index-NoByte : (sep : ℕ) (s : Text) → NoByte sep s → last_index sep s ≡ none
unfolding last_index
last_index-NoByte sep [] h = refl
last_index-NoByte sep (c ∷ s) h = rw (last_index-NoByte sep s h.1, h.0) refl

last_index-append :
    (sep : ℕ) (a s : Text) → NoByte sep s → last_index sep (a ++ (sep ∷ s)) ≡ some (length a)
unfolding last_index
last_index-append sep [] s h = rw (last_index-NoByte sep s h, (nat_beq_iff sep sep).1 refl) refl
last_index-append sep (c ∷ a) s h = rw (last_index-append sep a s h) refl

-- Behind `a` there is no separator: the last one stands in `a`, if there is one.
last_index_within :
    (sep : ℕ) (a s : Text)
    → NoByte sep s
    → (last_index sep (a ++ s) ≡ none)
      ⊎ ((i : ℕ) × (last_index sep (a ++ s) ≡ some i) × (i < length a))
unfolding last_index
last_index_within sep [] s h = inl (last_index-NoByte sep s h)
last_index_within sep (c ∷ a) s h = elim (last_index_within sep a s h) [
  | inr (i, e, less) ↦ inr (suc i, rw e refl, omega (arith, less))
  | inl e ↦ elim (Bool-cases (nat_beq c sep)) [
    | inl here ↦ inr (0, rw (e, here) refl, omega arith)
    | inr other ↦ inl (rw (e, other) refl)
  ]
]

cut_at-append : (a : Text) (c : ℕ) (s : Text) → cut_at (length a) (a ++ (c ∷ s)) ≡ (a, s)
unfolding take
cut_at-append [] c s = refl
cut_at-append (d ∷ a) c s =
    let rest = cut_at-append a c s in cc (ap (λ q. q.0) rest, ap (λ q. q.1) rest)

-- A repository joined to a digest by @, or to a tag by :, is taken apart into the two, where the
-- digest has no @, the tag has no @, : or slash, and a repository with a tag has no @.
pub split_image_ref-append :
    (repo : Text)
    → ((digest : Text)
        → NoByte b'@' digest
        → split_image_ref (repo ++ (b'@' ∷ digest)) ≡ some (repo, digest))
      × ((tag : Text)
          → NoByte b'@' repo
          → NoByte b'@' tag
          → NoByte b':' tag
          → NoByte b'/' tag
          → split_image_ref (repo ++ (b':' ∷ tag)) ≡ some (repo, tag))
unfolding split_image_ref
split_image_ref-append repo = (
  (λ digest plain.
      rw (split_image_ref, last_index-append b'@' repo digest plain)
        (ap some (cut_at-append repo b'@' digest))),
  (λ tag no_at at_free colon_free slash_free.
      let no_digest =
        last_index-NoByte b'@' (repo ++ (b':' ∷ tag))
          (All-append (λ c. nat_beq c b'@' ≡ false) repo (b':' ∷ tag) no_at (refl, at_free)) in
      let colon = last_index-append b':' repo tag colon_free in
      let parts = ap some (cut_at-append repo b':' tag) in
      elim (last_index_within b'/' repo (b':' ∷ tag) (refl, slash_free)) [
        | inl e ↦ rw (split_image_ref, no_digest, colon, e) parts
        | inr (i, e, less) ↦
            let behind : leb (length repo) i ≡ false = ground (arith, less) in
            rw (split_image_ref, no_digest, colon, e, behind) parts
      ]),
)
