-- ===== src/JsonStore/Revisions.antt =====
-- The numbers in the revision tokens of canary-agent-store-json/src/store.rs.
use canary_agent.Prelude.{ℕ, ◌<◌, ◌^◌, ◌≡◌, arith, ap}
use canary_agent.Prelude.Result.{ok}
use canary_agent.JsonStore.{
  to_be_bytes, from_be_bytes, from_u64, numeric_revision, checked_revision,
}

-- The number of a token that is made from a number of 64 bits is that number.
pub numeric_revision-from_u64 : (n : ℕ) → n < 2 ^ 64 → numeric_revision (from_u64 n) ≡ ok n
unfolding numeric_revision from_u64 to_be_bytes checked_revision from_be_bytes
numeric_revision-from_u64 n small = ap ok (omega arith)
