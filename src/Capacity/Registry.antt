-- ===== src/Capacity/Registry.antt =====
-- The Registry of pkg/capacity/provider.go: providers under their own names.
use opencoda.Prelude.{
  ◌≡◌, Option, some, [], if◌then◌else◌, Text, text_beq, Dict, lookup, insert, lookup-insert,
}
use opencoda.Capacity.Provider.{CapacityProvider}

record Registry (W : Type 0) : Type 0 where
  providers : Dict (CapacityProvider W)

module _ {W : Type 0} where
  abbrev new_registry : Registry W
  new_registry = record { providers = [] }

  abbrev register : CapacityProvider W → Registry W → Registry W
  register p r = record { providers = insert p.name p r.providers }

  abbrev get : Text → Registry W → Option (CapacityProvider W)
  get name r = lookup name r.providers

  -- What is registered last under a name is got by it.
  get-register :
      (p : CapacityProvider W) (name : Text) (r : Registry W)
      → get name (register p r) ≡ (if text_beq p.name name then some p else get name r)
  get-register p name r = lookup-insert p.name name p r.providers
