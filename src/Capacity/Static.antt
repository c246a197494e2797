-- ===== src/Capacity/Static.antt =====
-- pkg/capacity/static/static.go: nodes that have joined already. `now` is the clock's reading in a
-- world and `unix_nano` the same as a number for names.
use opencoda.Prelude.{ℕ, ◌*◌, false, List, [], ◌∷◌, ◌++◌, ◌+ℤ◌, pos, Text, bytes, decimal_ℕ}
use opencoda.Api.{Time}
use opencoda.Floats.{FloatOps}
use opencoda.Results.{Result, ok}
use opencoda.Capacity.Provider.{returning, Factory, GpuRequest, Offer, NodeHandle}

abbrev pub provider_name : Text
provider_name = bytes "static"

module _ {W : Type 0} (fl : FloatOps) (now : W → Time) (unix_nano : W → ℕ) where
  unfoldable pub quote : Text → GpuRequest → W → W × Result (List Offer)
  quote pool_name req w = (
    w,
    ok (
        record {
          id = bytes "static-" ++ pool_name;
          instance_type = bytes "static";
          zone = bytes "local";
          hourly_usd = fl.ratio 0 1;
          expires_at = now w +ℤ pos (24 * 3600 * 1_000_000_000);
          interruptible = false;
        }
        ∷ []),
  )

  unfoldable pub provision : Text → Offer → W → W × Result NodeHandle
  provision pool_name offer w =
      let node_name = bytes "static-pending-" ++ decimal_ℕ (unix_nano w) in
      (
        w,
        ok (record {
          provider_id = bytes "static://" ++ (pool_name ++ (b'/' ∷ node_name));
          node_name = node_name;
          labels =
              (bytes "opencoda.dev/provider", provider_name)
              ∷ (bytes "opencoda.dev/pool", pool_name)
              ∷ [];
          launched_at = now w;
        }),
      )

  unfoldable pub new_factory : Factory W
  unfolding quote provision
  new_factory pool creds boot = ok (record {
    name = provider_name;
    quote = quote pool.metadata.name;
    provision = λ offer w. returning (provision pool.metadata.name offer w);
    release = λ h w. (w, ok tt);
    capacity = λ pool_name w. (
      w,
      ok (record { available = pos 100; recent_ice = []; observed_hourly_usd = fl.ratio 0 1 }),
    );
  })
