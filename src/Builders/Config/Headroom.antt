-- ===== src/Builders/Config/Headroom.antt =====
-- The memory that internal/resource/configmap.go leaves to the Erlang VM.
use Prim.Native.Nat.{min}
use rabbitmq_operator.Prelude.{ℕ, ◌+◌, ◌*◌, ◌/◌, ◌^◌, ◌≤◌, ◌<◌, ◌≡◌, arith}
use rabbitmq_operator.Builders.Config.{remove_headroom}

-- The headroom is the smaller of a fifth of the limit and 2 GiB.
remove_headroom-min : (limit : ℕ) → remove_headroom limit + min (limit / 5) (2 * 1073741824) ≡ limit
unfolding remove_headroom
remove_headroom-min limit = ground arith

-- The headroom of a limit is the smaller of a fifth of it and 2 GiB: it and the value for the limit
-- make up the limit. For two positive limits, the first not above the second, and both in the range of
-- int64: the value for the first is not above the value for the second, which is at least four fifths
-- of its limit, and both values are positive and stay in the range.
pub remove_headroom-le :
    (limit larger : ℕ)
    → 0 < limit
    → limit ≤ larger
    → larger < 2 ^ 63
    → (remove_headroom limit + min (limit / 5) (2 * 1073741824) ≡ limit)
      × (remove_headroom limit ≤ remove_headroom larger)
      × (4 * larger ≤ 5 * remove_headroom larger)
      × (0 < remove_headroom limit)
      × (remove_headroom larger < 2 ^ 63)
remove_headroom-le limit larger positive h bound =
    let p = remove_headroom-min limit in
    let q = remove_headroom-min larger in (p, omega arith, omega arith, omega arith, omega arith)
