-- ===== src/Nodeagent.antt =====
-- internal/nodeagent/cachefill/daemon.go: the images that a node gets in advance. What the daemon
-- asks of the machine it runs on is the interface `Host`. Run ends by waiting for its context, which
-- is left out.
pub mod Images
use opencoda.Prelude.{
  Bool, true, false, not, ◌||◌, Option, none, some, List, [], ◌∷◌, ◌++◌, if◌then◌else◌, Text, bytes,
  has_prefix,
}
use opencoda.Nodeagent.Images.{is_nydus_oci_image, in_listing, cache_dir, nydus_create}
use opencoda.Results.{Result, ok, err, message}

pub record Host (W : Type 0) : Type 0 where
  -- exec.LookPath and os.Stat, true where they give no error
  pub look_path : Text → W → Bool
  pub stat : Text → W → Bool
  -- os.MkdirAll, whose error is dropped
  pub mkdir_all : Text → W → W
  -- Run and Output of a command; `none` where Output gives an error
  pub run : List Text → W → W × Result (Unit {0})
  pub output : List Text → W → W × Option Text

pub record Daemon : Type 0 where
  pub images : List Text

abbrev pub new : List Text → Daemon
new images = record { images = images }

abbrev pub on_host : List Text → List Text
on_host command =
    bytes "nsenter"
    ∷ bytes "-t"
    ∷ bytes "1"
    ∷ bytes "-m"
    ∷ bytes "-u"
    ∷ bytes "-i"
    ∷ bytes "-n"
    ∷ command

abbrev pub crictl_pull : Text → List Text
crictl_pull image = bytes "crictl" ∷ bytes "pull" ∷ image ∷ []

abbrev pub ctr_pull : Text → List Text
ctr_pull image =
    bytes "ctr" ∷ bytes "-n" ∷ bytes "k8s.io" ∷ bytes "images" ∷ bytes "pull" ∷ image ∷ []

abbrev pub is_ok : Result (Unit {0}) → Bool
is_ok (ok _) = true
is_ok (err e) = false

-- How Run is done with an image.
pub data Filled : Type 0 where
  pull_failed prefetch_failed : Filled
  warmed : Filled

module _ {W : Type 0} (host : Host W) where
  abbrev listed : W → W × Option Text
  listed w =
      if host.look_path (bytes "nsenter") w
      then host.output (on_host (bytes "crictl" ∷ bytes "images" ∷ [])) w
      else if host.look_path (bytes "crictl") w
      then host.output (bytes "crictl" ∷ bytes "images" ∷ []) w
      else (w, none)

  unfoldable pub image_present : Text → W → W × Bool
  unfolding in_listing
  image_present image w =
      let (w', out) = listed w in
      (w', elim out [ none ↦ false | some text ↦ in_listing image text ])

  -- Whether the tool is there and the command succeeds.
  abbrev pub tried : Text → List Text → W → W × Bool
  tried tool command w =
      let (w', r) = host.run command w in
      if host.look_path tool w then (w', is_ok r) else (w, false)

  unfoldable pub pull_full_blob : Text → W → W × Result (Unit {0})
  unfolding image_present is_nydus_oci_image
  pull_full_blob image w =
      let (w1, present) = image_present image w in
      let (w2, entered) = tried (bytes "nsenter") (on_host (crictl_pull image)) w1 in
      let (w3, pulled) = tried (bytes "crictl") (crictl_pull image) w2 in
      if is_nydus_oci_image image
      then (w, ok tt)
      else if present
      then (w1, ok tt)
      else if entered
      then (w2, ok tt)
      else if pulled
      then (w3, ok tt)
      else if host.look_path (bytes "ctr") w3
      then host.run (ctr_pull image) w3
      else (
        w3,
        err (
            message (bytes "image " ++ (image ++ bytes " not present and no pull tool succeeded"))),
      )

  unfoldable pub is_local_prefetch_source : Text → W → Bool
  unfolding has_prefix
  is_local_prefetch_source image w = has_prefix image (bytes "/") || host.stat image w

  unfoldable pub warm_nydus_prefetch : Text → W → W × Result (Unit {0})
  unfolding is_nydus_oci_image is_local_prefetch_source
  warm_nydus_prefetch image w =
      if is_nydus_oci_image image
        || (not (host.look_path (bytes "nydus-image") w) || not (is_local_prefetch_source image w))
      then (w, ok tt)
      else host.run (nydus_create image) (host.mkdir_all cache_dir w)

  unfoldable pub fill_image : Text → W → W × Filled
  unfolding pull_full_blob warm_nydus_prefetch
  fill_image image w =
      let (w', pulled) = pull_full_blob image w in
      let (w'', warm) = warm_nydus_prefetch image w' in
      if is_ok pulled
      then (w'', if is_ok warm then warmed else prefetch_failed)
      else (w', pull_failed)

  -- The loop of Run.
  unfoldable pub fill_images : List Text → W → W × List Filled
  unfolding fill_image
  fill_images [] w = (w, [])
  fill_images (image ∷ images) w =
      let (w', filled) = fill_image image w in
      let (w'', rest) = fill_images images w' in (w'', filled ∷ rest)

  abbrev with_default : Daemon → Daemon
  with_default d = elim d.images [
    | [] ↦ new (bytes "ghcr.io/immanuel-peter/opencoda-fakevllm:latest" ∷ [])
    | _ ∷ _ ↦ d
  ]

  unfoldable pub run : Daemon → W → Daemon × W × List Filled
  unfolding fill_images
  run d w = let (w', filled) = fill_images (with_default d).images w in (with_default d, w', filled)
