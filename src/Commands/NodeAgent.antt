-- ===== src/Commands/NodeAgent.antt =====
-- cmd/coda-node-agent/main.go: the flag --images and the daemon that runs on it. The image of the
-- daemon's own default comes in where the flag is empty.
use opencoda.Prelude.{List, [], if◌then◌else◌, Text, text_beq, split}
use opencoda.Nodeagent.{Host, Daemon, new, run, Filled}

-- The images between the commas; none for an empty flag.
unfoldable pub image_list : Text → List Text
unfolding text_beq split
image_list images = if text_beq images [] then [] else split b',' images

unfoldable pub main : {W : Type 0} → Host W → Text → W → Daemon × W × List Filled
unfolding image_list run
main host images w = run host (new (image_list images)) w
