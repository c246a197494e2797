-- ===== src/Capacity/Bootstrap.antt =====
-- pkg/capacity/bootstrap/bootstrap.go: the script that a new node runs. `quote` is the format's %q.
use opencoda.Prelude.{[], ◌++◌, if◌then◌else◌, Text, bytes, text_beq, trim_space}

pub record Config : Type 0 where
  pub api_server_url : Text
  pub ca_bundle : Text
  pub join_token : Text
  pub pool_name : Text
  pub cluster_name : Text
  pub join_mode : Text

abbrev join_eks : (Text → Text) → Config → Text
join_eks quote cfg =
    let cluster = if text_beq cfg.cluster_name [] then bytes "opencoda" else cfg.cluster_name in
    bytes "/etc/eks/bootstrap.sh "
    ++ (quote cluster
        ++ (bytes " --kubelet-extra-args '--node-labels=opencoda.dev/gpu=true,opencoda.dev/pool="
            ++ (cfg.pool_name ++ bytes ",opencoda.dev/buffer-eligible=true'")))

abbrev join_kubeadm : Config → Text
join_kubeadm cfg =
    bytes "kubeadm join "
    ++ (cfg.api_server_url
        ++ (bytes " --token "
            ++ (cfg.join_token ++ bytes " --discovery-token-unsafe-skip-cause-unknown")))

unfoldable pub join_cmd : (Text → Text) → Config → Text
unfolding text_beq
join_cmd quote cfg =
    let join_mode = if text_beq cfg.join_mode [] then bytes "kubeadm" else cfg.join_mode in
    if text_beq join_mode (bytes "eks")
    then join_eks quote cfg
    else if text_beq join_mode (bytes "gke")
    then bytes
        "gcloud container clusters get-credentials ${CLUSTER_NAME:-opencoda} --zone ${ZONE:-us-central1-a}"
    else join_kubeadm cfg

unfoldable pub user_data : (Text → Text) → Config → Text
unfolding join_cmd
user_data quote cfg =
    bytes "#!/bin/bash\nset -euo pipefail\n# node labels for OpenCoda (pool="
    ++ (cfg.pool_name ++ (bytes ")\n" ++ (join_cmd quote cfg ++ bytes "\n")))

unfoldable pub startup_script : (Text → Text) → Config → Text
unfolding user_data
startup_script quote cfg = trim_space (user_data quote cfg)
