-- ===== src/Mlx/Flags.antt =====
-- The drop bit of the metadata, and their encoding.
use nica.Base.{◌+◌, ◌*◌, ◌/◌, ◌^◌, ◌<◌, ◌≡◌, refl, Bool, true, false, range, arith}
use nica.Mlx.{MlxMetadata, mlx_of_bits, mlx_bits, set_drop, get_drop}

-- For all metadata, the drop bit reads back as it was set, the other bits of `user` and the `id`
-- stay, and setting it again overrides: only the last value counts.
pub get_drop-set_drop :
    (m : MlxMetadata) (b c : Bool)
    → (get_drop (set_drop m b) ≡ b)
      × ((set_drop m b).user / 2 ≡ m.user / 2)
      × ((set_drop m b).id ≡ m.id)
      × (set_drop (set_drop m b) c ≡ set_drop m c)
unfolding get_drop set_drop
get_drop-set_drop m true c =
    let high : (m.user / 2 * 2 ^ 1 + 1) / 2 ≡ m.user / 2 = omega arith in
    (ground arith, high, refl, rw high refl)
get_drop-set_drop m false c =
    let high : (m.user / 2 * 2 ^ 1 + 0) / 2 ≡ m.user / 2 = omega arith in
    (ground arith, high, refl, rw high refl)

-- Metadata of 12 and 3 bits survive encoding into 15 bits and decoding.
pub mlx_roundtrip :
    (m : MlxMetadata)
    → m.user < 2 ^ 12
    → m.id < 2 ^ 3
    → (mlx_bits m < 2 ^ 15) × (mlx_of_bits (mlx_bits m) ≡ m)
unfolding mlx_bits mlx_of_bits
mlx_roundtrip m hu hi =
    let user : range (mlx_bits m) 14 3 ≡ m.user = omega arith in
    let id : range (mlx_bits m) 2 0 ≡ m.id = omega arith in
    (omega arith, λ i. record { user = user i; id = id i })
