-- ===== src/Orchestrator/Address.antt =====
-- Addresses of the chain. `ethers.isAddress` is a parameter of what uses it.
use audit_guard.Prelude.{String, Bool, Option, none, some, truthy, if◌then◌else◌}

-- `normalizeAddress`: the address if it is one, else the empty text.
unfoldable pub valid : (String → Bool) → Option String → String
valid is_address none = ""
valid is_address (some s) = if is_address s then s else ""

unfoldable pub normalize_address : (String → Bool) → Option String → String
unfolding valid
normalize_address is_address value = valid is_address (truthy value)
