-- ===== src/Start/Choice.antt =====
-- The alternate setting and the transfer size that `uvc_stream_start` of src/stream.c chooses.
use usb_video_class.Base.{
  suc, zero, ◌⊎◌, if_cases, ltb→lt, ℕ, ◌+◌, ◌-◌, ◌*◌, ◌/◌, ◌≤◌, ◌<◌, ◌≡◌, refl, ap, ◌∙◌, inl, inr,
  false, none, some, List, [], ◌∷◌, ◌++◌, ltb, leb, ◌==◌, if◌then◌else◌, if_true, if_false, arith,
  Bool-cases, leb→le,
}
use native.Mathlib.Nat.{div-mul-le_self, lt-div-mul-add}
use usb_video_class.Start.{AltSetting, endpoint_bytes, choose_alt, Plan, plan_packets}

-- Settings whose packets are all too small.
pub data AllSmall (addr wanted : ℕ) : List AltSetting → Type 0 where
  none_left : AllSmall addr wanted []
  small :
      {a : AltSetting} {rest : List AltSetting}
      → endpoint_bytes addr a.endpoints < wanted
      → AllSmall addr wanted rest
      → AllSmall addr wanted (a ∷ rest)

-- The first setting with packets of the wanted size, and that size.
pub record IsFirst (addr wanted : ℕ) (alts : List AltSetting) (alt : AltSetting) (bytes : ℕ)
    : Type 0 where
  pub before : List AltSetting
  pub after : List AltSetting
  pub found : alts ≡ before ++ alt ∷ after
  pub too_small : AllSmall addr wanted before
  pub size : bytes ≡ endpoint_bytes addr alt.endpoints
  pub enough : wanted ≤ bytes

pub choose_alt_exact :
    (addr wanted : ℕ) (alts : List AltSetting)
    → ((choose_alt addr wanted alts ≡ none) × AllSmall addr wanted alts)
      ⊎ ((alt : AltSetting) × (bytes : ℕ) × (choose_alt addr wanted alts ≡ some (alt, bytes))
          × IsFirst addr wanted alts alt bytes)
unfolding choose_alt
choose_alt_exact addr wanted [] = inl (refl, none_left)
choose_alt_exact addr wanted (a ∷ rest) =
    elim (Bool-cases (leb wanted (endpoint_bytes addr a.endpoints))) [
      | inl fits ↦ inr (
        a,
        endpoint_bytes addr a.endpoints,
        if_true _ _ fits,
        record {
          before = [];
          after = rest;
          found = refl;
          too_small = none_left;
          size = refl;
          enough = leb→le wanted (endpoint_bytes addr a.endpoints) fits;
        },
      )
      | inr tight ↦
          let less : endpoint_bytes addr a.endpoints < wanted = ground (arith, tight) in
          elim (choose_alt_exact addr wanted rest) [
            | inl (e, all) ↦ inl (if_false _ _ tight ∙ e, small less all)
            | inr (alt, bytes, e, f) ↦ inr (
              alt,
              bytes,
              if_false _ _ tight ∙ e,
              record {
                before = a ∷ f.before;
                after = f.after;
                found = ap (◌∷◌ a) f.found;
                too_small = small less f.too_small;
                size = f.size;
                enough = f.enough;
              },
            )
          ]
    ]

pub nonzero : (n : ℕ) → 0 < n → (n == 0) ≡ false
nonzero n h = ground arith

abbrev pub of_packets : ℕ → ℕ → Plan
of_packets bytes n = record { packets_per_transfer = n; total_transfer_size = n * bytes }

-- What `plan_packets` promises for packets of `bytes` bytes.
abbrev pub Fits : ℕ → ℕ → Plan → Type 0
Fits frame_size bytes p =
    (1 ≤ p.packets_per_transfer)
    × (p.packets_per_transfer ≤ 32)
    × (p.total_transfer_size ≡ p.packets_per_transfer * bytes)
    × ((p.packets_per_transfer ≡ 32) ⊎ (frame_size ≤ p.total_transfer_size))
    × (p.total_transfer_size < frame_size + bytes)

capped_Fits :
    (frame_size bytes q : ℕ)
    → 1 ≤ frame_size
    → q * bytes ≤ frame_size + bytes - 1
    → frame_size + bytes - 1 < q * bytes + bytes
    → 1 ≤ bytes
    → Fits frame_size bytes (of_packets bytes (if ltb 32 q then 32 else q))
capped_Fits frame_size bytes q pos_frame low high pos_bytes =
    if_cases (λ capped. Fits frame_size bytes (of_packets bytes capped)) (ltb 32 q)
      (λ many.
        let more : 33 ≤ q = ltb→lt 32 q many in
        (omega arith, omega arith, refl, inl refl, grind arith))
      (λ few. (positive q low high, ground (arith, few), refl, inr (omega arith), omega arith))
  where
    positive :
        (k : ℕ)
        → k * bytes ≤ frame_size + bytes - 1
        → frame_size + bytes - 1 < k * bytes + bytes
        → 1 ≤ k
    positive zero l h = absurd (omega arith)
    positive (suc k) l h = omega arith

-- Packets of at least one byte make a transfer of 1 to 32 packets for a frame that is not empty; the
-- transfer takes the whole frame unless it has 32 packets, and is less than a packet longer.
pub plan_packets_bounds :
    (frame_size bytes : ℕ)
    → 0 < bytes
    → 0 < frame_size
    → (p : Plan) × (plan_packets frame_size bytes ≡ some p) × Fits frame_size bytes p
unfolding plan_packets
plan_packets_bounds frame_size bytes pos_bytes pos_frame =
    let q = (frame_size + bytes - 1) / bytes in
    let capped = if ltb 32 q then 32 else q in
    (
      of_packets bytes capped,
      if_false _ _ (nonzero bytes pos_bytes),
      capped_Fits frame_size bytes q pos_frame (div-mul-le_self (frame_size + bytes - 1) bytes)
          (lt-div-mul-add pos_bytes) pos_bytes,
    )
