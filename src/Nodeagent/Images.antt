-- ===== src/Nodeagent/Images.antt =====
-- The functions of the daemon on the names of images and on the output of crictl.
pub mod Refs
use opencoda.Prelude.{
  ℕ, zero, suc, Bool, false, not, ◌&&◌, ◌||◌, Option, none, some, List, [], ◌∷◌, ◌++◌, map, leb,
  nat_beq, if◌then◌else◌, drop, keep, any, Text, bytes, text_beq, push_head, split, is_space,
  contains,
}

-- strings.LastIndex for one byte.
unfoldable pub last_index : ℕ → Text → Option ℕ
last_index sep [] = none
last_index sep (c ∷ s) = elim (last_index sep s) [
  | some i ↦ some (suc i)
  | none ↦ if nat_beq c sep then some 0 else none
]

unfoldable pub take : ℕ → Text → Text
take zero s = []
take (suc n) [] = []
take (suc n) (c ∷ s) = c ∷ take n s

-- image[:i] and image[i+1:]
abbrev pub cut_at : ℕ → Text → Text × Text
cut_at i s = (take i s, drop (suc i) s)

-- strings.Fields
unfoldable pub split_spaces : Text → List Text
split_spaces [] = [] ∷ []
split_spaces (c ∷ s) =
    let rest = split_spaces s in if is_space c then [] ∷ rest else push_head c rest

unfoldable pub fields : Text → List Text
unfolding split_spaces text_beq
fields s = keep (λ t. not (text_beq t [])) (split_spaces s)

unfoldable pub is_nydus_oci_image : Text → Bool
unfolding contains
is_nydus_oci_image image = contains image (bytes "-nydus")

-- The repository and the tag or digest; `none` where `ok` is false.
unfoldable pub split_image_ref : Text → Option (Text × Text)
unfolding last_index take
split_image_ref image = elim (last_index b'@' image) [
  | some at ↦ some (cut_at at image)
  | none ↦ elim (last_index b':' image) [
    | none ↦ none
    | some colon ↦ elim (last_index b'/' image) [
      | none ↦ some (cut_at colon image)
      | some slash ↦ if leb colon slash then none else some (cut_at colon image)
    ]
  ]
]

abbrev is_line_of : Text × Text → List Text → Bool
is_line_of (repo, tag) (first ∷ second ∷ more) = text_beq first repo && text_beq second tag
is_line_of (repo, tag) _ = false

-- Whether the output of crictl speaks of the image: a line has its repository and tag, or the image's
-- text stands anywhere in it, or the part of it behind the last slash does.
unfoldable pub in_listing : Text → Text → Bool
unfolding split_image_ref fields contains
in_listing image text =
    let named : Bool = elim (split_image_ref image) [
      | none ↦ false
      | some ref ↦ any (λ line. is_line_of ref (fields line)) (split 10 text)
    ] in
    let short : Bool = elim (last_index b'/' image) [
      | none ↦ false
      | some slash ↦ contains text (drop (suc slash) image)
    ] in
    named || (contains text image || short)

abbrev underscored : ℕ → ℕ
underscored c = if nat_beq c b'/' then b'_' else c

abbrev pub cache_dir : Text
cache_dir = bytes "/var/cache/opencoda/nydus"

abbrev pub nydus_create : Text → List Text
nydus_create image =
    let stem : Text = cache_dir ++ (b'/' ∷ map underscored image) in
    bytes "nydus-image"
    ∷ bytes "create"
    ∷ bytes "--bootstrap"
    ∷ (stem ++ bytes ".bootstrap")
    ∷ bytes "--blob"
    ∷ (stem ++ bytes ".blob")
    ∷ image
    ∷ []
