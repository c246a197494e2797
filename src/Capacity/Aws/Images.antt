-- ===== src/Capacity/Aws/Images.antt =====
-- resolveAMI and latestGPUAMI.
use opencoda.Prelude.{
  Bool, true, false, List, [], ◌∷◌, ◌++◌, ltb, if◌then◌else◌, Text, bytes, text_beq, trim_space,
  get_or,
}
use opencoda.Scheduler.Sort.{SortSlice}
use opencoda.Results.{Result, ok, err, message}
use opencoda.Capacity.Aws.Types.{to_error, Provider, Image, Ec2, unknown, images}

-- s > t on strings: bytes are compared in order.
unfoldable pub text_greater : Text → Text → Bool
text_greater [] t = false
text_greater (c ∷ s) [] = true
text_greater (c ∷ s) (d ∷ t) =
    let rest = text_greater s t in if ltb d c then true else if ltb c d then false else rest

-- The later one first.
abbrev pub newer : Image → Image → Bool
newer a b = text_greater a.creation_date b.creation_date

unfoldable pub name_patterns : Provider → List Text
unfolding text_beq
name_patterns p =
    let version = trim_space (get_or p.params (bytes "kubernetesVersion") []) in
    (if text_beq version []
      then []
      else (bytes "amazon-eks-gpu-node-" ++ (version ++ bytes "-*")) ∷ [])
    ++ (bytes "amazon-eks-gpu-node-1.32-*"
        ∷ bytes "amazon-eks-gpu-node-1.31-*"
        ∷ bytes "amazon-eks-gpu-node-*"
        ∷ [])

module _ {W : Type 0} (ec2 : Ec2 W) (s : SortSlice Image) where
  abbrev pub first_id : List Image → Text
  first_id [] = []
  first_id (image ∷ rest) = image.image_id

  unfoldable pub latest_gpu_ami : Text → W → W × Result Text
  latest_gpu_ami pattern w =
      let (w', described) = ec2.describe_images pattern w in
      (
        w',
        elim described [
          | unknown e ↦ err (to_error e)
          | images found ↦ ok (first_id (s.sort newer found))
        ],
      )

  -- The loop over the patterns, which ends at the first image or error.
  unfoldable pub find_ami : Text → List Text → W → W × Result Text
  unfolding latest_gpu_ami text_beq
  find_ami region [] w = (w, err (message (bytes "no EKS GPU AMI found in " ++ region)))
  find_ami region (pattern ∷ patterns) w =
      let (w', found) = latest_gpu_ami pattern w in
      elim found [
        | err e ↦ (w', err e)
        | ok ami ↦ elim (text_beq ami []) [
          | true ↦ find_ami region patterns w'
          | false ↦ (w', ok ami)
        ]
      ]

  unfoldable pub resolve_ami : Provider → W → W × Result Text
  unfolding find_ami name_patterns text_beq
  resolve_ami p w =
      let ami = trim_space (get_or p.params (bytes "ami") []) in
      let searched = find_ami p.region (name_patterns p) w in
      if text_beq ami [] then searched else (w, ok ami)
