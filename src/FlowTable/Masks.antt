-- ===== src/FlowTable/Masks.antt =====
-- The keys of the flow table: packed forms, and which headers share a key.
use nica.Base.{
  ==_iff, ℕ, zero, suc, ◌+◌, ◌-◌, ◌*◌, ◌/◌, ◌%◌, ◌^◌, ◌≤◌, ◌<◌, ◌≡◌, ◌≢◌, ◌↔◌, refl, range, ◌==◌,
  true, Bool-cases, inl, inr, arith, if◌then◌else◌,
}
use nica.FlowTable.Keys.{
  Flow, Value, mask, bit, band, flow_and, flow_eq, flow_bits, flow_of_bits, value_bits,
  value_of_bits,
}

-- Every field fits its width.
pub record FlowFits (f : Flow) : Type 0 where
  pub source_port : f.source_port < 2 ^ 16
  pub dest_port : f.dest_port < 2 ^ 16
  pub saddr : f.saddr < 2 ^ 32
  pub daddr : f.daddr < 2 ^ 32
  pub vm_id : f.vm_id < 2 ^ 6

-- A flow whose fields fit their widths survives packing and unpacking.
pub flow_roundtrip : (f : Flow) → FlowFits f → flow_of_bits (flow_bits f) ≡ f
unfolding flow_of_bits flow_bits
flow_roundtrip f h =
    let p1 : range (flow_bits f) 101 86 ≡ f.source_port = omega arith in
    let p2 : range (flow_bits f) 85 70 ≡ f.dest_port = omega arith in
    let p3 : range (flow_bits f) 69 38 ≡ f.saddr = omega arith in
    let p4 : range (flow_bits f) 37 6 ≡ f.daddr = omega arith in
    let p5 : range (flow_bits f) 5 0 ≡ f.vm_id = omega arith in
    λ i. record { source_port = p1 i; dest_port = p2 i; saddr = p3 i; daddr = p4 i; vm_id = p5 i }

-- A value whose action has two bits, engine one and ikernel six survives packing and unpacking.
pub value_roundtrip :
    (v : Value)
    → v.action < 4
    → v.engine_id < 2
    → v.ikernel_id < 2 ^ 6
    → value_of_bits (value_bits v) ≡ v
unfolding value_of_bits value_bits
value_roundtrip v a e k =
    let p1 : range (value_bits v) 8 7 ≡ v.action = omega arith in
    let p2 : range (value_bits v) 6 6 ≡ v.engine_id = omega arith in
    let p3 : range (value_bits v) 5 0 ≡ v.ikernel_id = omega arith in
    λ i. record { action = p1 i; engine_id = p2 i; ikernel_id = p3 i }

-- `w` ones.
abbrev ones : ℕ → ℕ
ones zero = 0
ones (suc w) = 1 + 2 * ones w

band-zero : (w a : ℕ) → band w a 0 ≡ 0
unfolding band
band-zero zero a = refl
band-zero (suc w) a = let rest = band-zero w (a / 2) in omega (arith, rest)

band-ones : (w a : ℕ) → a ≤ ones w → band w a (ones w) ≡ a
unfolding band
band-ones zero a le = omega arith
band-ones (suc w) a le =
    let rest = band-ones w (a / 2) (omega arith) in
    let half : (1 + 2 * ones w) / 2 ≡ ones w = omega arith in
    let odd : (1 + 2 * ones w) % 2 ≡ 1 = omega arith in rw (half, odd, rest) (omega arith)

-- A field of the key: what the mask keeps of it.
abbrev pub kept : ℕ → ℕ → ℕ → ℕ
kept fields k x = if bit fields k == 0 then 0 else x

band_mask16 :
    (fields k x : ℕ)
    → x < 2 ^ 16
    → band 16 x (if bit fields k == 0 then 0 else 2 ^ 16 - 1) ≡ kept fields k x
band_mask16 fields k x h = elim (Bool-cases (bit fields k == 0)) [
  | inl t ↦ rw t (band-zero 16 x)
  | inr f ↦ rw f (band-ones 16 x (omega arith))
]

band_mask32 :
    (fields k x : ℕ)
    → x < 2 ^ 32
    → band 32 x (if bit fields k == 0 then 0 else 2 ^ 32 - 1) ≡ kept fields k x
band_mask32 fields k x h = elim (Bool-cases (bit fields k == 0)) [
  | inl t ↦ rw t (band-zero 32 x)
  | inr f ↦ rw f (band-ones 32 x (omega arith))
]

-- A selected field of two keys is equal exactly if the field was.
abbrev pub AgreeAt : ℕ → ℕ → ℕ → ℕ → Type 0
AgreeAt fields k x y = bit fields k ≢ 0 → x ≡ y

-- Two headers agree on the fields that the mask selects.
pub record Agree (fields : ℕ) (f g : Flow) : Type 0 where
  pub saddr : AgreeAt fields 0 f.saddr g.saddr
  pub daddr : AgreeAt fields 1 f.daddr g.daddr
  pub source_port : AgreeAt fields 2 f.source_port g.source_port
  pub dest_port : AgreeAt fields 3 f.dest_port g.dest_port

kept-agree : (fields k x y : ℕ) → (kept fields k x ≡ kept fields k y) ↔ AgreeAt fields k x y
kept-agree fields k x y = elim (Bool-cases (bit fields k == 0)) [
  | inl t ↦
      let unset = (==_iff (bit fields k) 0).0 t in
      rw t (
        λ (e : 0 ≡ 0) (ne : bit fields k ≢ 0). absurd (ne unset),
        λ (h : AgreeAt fields k x y). refl,
      )
  | inr f ↦
      let set : bit fields k ≢ 0 = ground arith in
      rw f (λ (e : x ≡ y) (ne : bit fields k ≢ 0). e, λ (h : AgreeAt fields k x y). h set)
]

-- The key of a header.
abbrev pub key_of : ℕ → Flow → Flow
key_of fields f = flow_and f (mask fields)

abbrev kept_key : ℕ → Flow → Flow
kept_key fields f = record {
  source_port = kept fields 2 f.source_port;
  dest_port = kept fields 3 f.dest_port;
  saddr = kept fields 0 f.saddr;
  daddr = kept fields 1 f.daddr;
  vm_id = 0;
}

key_lem : (fields : ℕ) (f : Flow) → FlowFits f → key_of fields f ≡ kept_key fields f
unfolding flow_and mask
key_lem fields f h =
    let p1 = band_mask16 fields 2 f.source_port h.source_port in
    let p2 = band_mask16 fields 3 f.dest_port h.dest_port in
    let p3 = band_mask32 fields 0 f.saddr h.saddr in
    let p4 = band_mask32 fields 1 f.daddr h.daddr in
    λ i. record { source_port = p1 i; dest_port = p2 i; saddr = p3 i; daddr = p4 i; vm_id = 0 }

-- `operator ==` is equality of the fields.
flow_eq_iff :
    (a b : Flow)
    → (flow_eq a b ≡ true) ↔ (
        (a.source_port ≡ b.source_port)
        × (a.dest_port ≡ b.dest_port)
        × (a.saddr ≡ b.saddr)
        × (a.daddr ≡ b.daddr)
        × (a.vm_id ≡ b.vm_id))
unfolding flow_eq
flow_eq_iff a b = ground arith

-- The keys of two headers, whose fields fit their widths, are equal exactly if the headers agree
-- on the fields that the `fields` register selects; the bit of the VM selects nothing.
pub flow_eq-flow_and :
    (fields : ℕ) (f g : Flow)
    → FlowFits f
    → FlowFits g
    → (flow_eq (flow_and f (mask fields)) (flow_and g (mask fields)) ≡ true) ↔ Agree fields f g
flow_eq-flow_and fields f g hf hg =
    let (to, from) = flow_eq_iff (kept_key fields f) (kept_key fields g) in
    let s = kept-agree fields 0 f.saddr g.saddr in
    let d = kept-agree fields 1 f.daddr g.daddr in
    let sp = kept-agree fields 2 f.source_port g.source_port in
    let dp = kept-agree fields 3 f.dest_port g.dest_port in
    rw (key_lem fields f hf, key_lem fields g hg)
      (
        λ (e : flow_eq (kept_key fields f) (kept_key fields g) ≡ true).
            let (a, b, c, x, _) = to e in
            record { saddr = s.0 c; daddr = d.0 x; source_port = sp.0 a; dest_port = dp.0 b },
        λ (h : Agree fields f g).
            from (sp.1 h.source_port, dp.1 h.dest_port, s.1 h.saddr, d.1 h.daddr, refl),
      )
