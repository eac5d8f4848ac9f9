-- ===== src/Timer/Ticks.antt =====
-- When the timer fires.
use cn.Common.{
  ℕ, ◌⊎◌, inl, inr, zero, suc, ◌+◌, ◌-◌, ◌*◌, ◌^◌, ◌<◌, ◌≤◌, ◌≡◌, refl, ap, ◌∙◌, arith, true, false,
  ◌==◌, if◌then◌else◌, if_branches,
}
use cn.Common.Words.{IsWord, u16}
use cn.Core.{Input}
use cn.Core.Regs.{is_set}
use cn.CpIf.{CpHdr, signal}
use cn.Utils.Fields.{field_getbits16-field_setbits16}
use cn.Timer.{reg_ctl, reg_cycle_lo, reg_cycle_hi, get_enabled, timer_state_data}

-- The number of ticks that the two cycle registers stand for.
unfoldable pub remaining : CpHdr → ℕ
remaining hdr =
    (if hdr.regs reg_cycle_lo == 0 then 2 ^ 16 else hdr.regs reg_cycle_lo)
    + hdr.regs reg_cycle_hi * 2 ^ 16

-- `n` calls of `timer_state_data`.
unfoldable pub ticks : ℕ → CpHdr × Input → CpHdr × Input
ticks zero (hdr, input) = (hdr, input)
ticks (suc n) (hdr, input) = ticks n (timer_state_data hdr input)

-- An enabled timer whose registers are words.
pub record IsRunning (hdr : CpHdr) : Type 0 where
  pub enabled : is_set (get_enabled hdr) ≡ true
  pub ctl : IsWord (hdr.regs reg_ctl)
  pub lo : IsWord (hdr.regs reg_cycle_lo)
  pub hi : IsWord (hdr.regs reg_cycle_hi)

-- What one tick does, by the number of ticks that remain.
abbrev Ticked : CpHdr → Input → CpHdr × Input → Type 0
Ticked hdr input (hdr', input') =
    (2 ≤ remaining hdr
      → IsRunning hdr'
        × (remaining hdr' + 1 ≡ remaining hdr)
        × (input' ≡ input)
        × (hdr'.cpnum ≡ hdr.cpnum))
    × (remaining hdr ≡ 1 → (is_set (get_enabled hdr') ≡ false) × (input' ≡ signal hdr input true))

timer_state_data-Ticked :
    (hdr : CpHdr) (input : Input) → IsRunning hdr → Ticked hdr input (timer_state_data hdr input)
unfolding timer_state_data remaining get_enabled
timer_state_data-Ticked hdr input r =
    if_branches (Ticked hdr input) (is_set (get_enabled hdr)) _ _
      (λ _.
        if_branches (Ticked hdr input) (u16 (hdr.regs reg_cycle_lo + 2 ^ 16 - 1) == 0) _ _
          (λ e.
            if_branches (Ticked hdr input) (hdr.regs reg_cycle_hi == 0) _ _
              (λ e'. (
                λ h. absurd (ground arith),
                λ h. (
                  ground (
                    arith,
                    field_getbits16-field_setbits16 (hdr.regs reg_ctl) 1 0 r.ctl (omega arith)
                        (omega arith),
                  ),
                  refl,
                ),
              ))
              (λ e'. (
                λ h. (
                  record { enabled = r.enabled; ctl = r.ctl; lo = omega arith; hi = omega arith },
                  ground arith,
                  refl,
                  refl,
                ),
                λ h. absurd (ground arith),
              )))
          (λ e. (
            λ h. (
              record { enabled = r.enabled; ctl = r.ctl; lo = omega arith; hi = r.hi },
              ground arith,
              refl,
              refl,
            ),
            λ h. absurd (ground arith),
          )))
      (λ e. absurd (ground arith))

remaining-positive : (hdr : CpHdr) → 1 ≤ remaining hdr
unfolding remaining
remaining-positive hdr = ground arith

timer_state_data-off :
    (hdr : CpHdr) (input : Input)
    → is_set (get_enabled hdr) ≡ false
    → timer_state_data hdr input ≡ (hdr, input)
unfolding timer_state_data
timer_state_data-off hdr input off =
    if_branches (λ (z : CpHdr × Input). z ≡ (hdr, input)) (is_set (get_enabled hdr)) _ _
      (λ e. absurd (ground arith)) (λ e. refl)

one_or_more : (n : ℕ) → 1 ≤ n → (n ≡ 1) ⊎ (2 ≤ n)
one_or_more zero h = absurd (omega arith)
one_or_more (suc zero) h = inl refl
one_or_more (suc (suc n)) h = inr (omega arith)

-- A timer that is off does nothing.
ticks-off :
    (k : ℕ) (hdr : CpHdr) (input : Input)
    → is_set (get_enabled hdr) ≡ false
    → ticks k (hdr, input) ≡ (hdr, input)
unfolding ticks
ticks-off zero hdr input off = refl
ticks-off (suc k) hdr input off =
    ap (ticks k) (timer_state_data-off hdr input off) ∙ ticks-off k hdr input off

-- A timer that is started with `lo` and `hi` in its cycle registers raises its interrupt line at
-- the tick number `lo + 65536 * hi`, or `65536 + 65536 * hi` where `lo` is 0: before that tick
-- it leaves the pins alone, and from it on the line is up and nothing else has changed.
pub ticks-fires :
    (k : ℕ) (hdr : CpHdr) (input : Input)
    → IsRunning hdr
    → (k < remaining hdr → (ticks k (hdr, input)).1 ≡ input)
      × (remaining hdr ≤ k → (ticks k (hdr, input)).1 ≡ signal hdr input true)
unfolding ticks
ticks-fires zero hdr input r = (λ h. refl, λ h. absurd (omega (arith, remaining-positive hdr)))
ticks-fires (suc k) hdr input r =
    let (running, last) = timer_state_data-Ticked hdr input r in
    let later = ticks-fires k (timer_state_data hdr input).0 (timer_state_data hdr input).1 in
    elim (one_or_more (remaining hdr) (remaining-positive hdr)) [
      | inl one ↦
          let (off, up) = last one in
          (
            λ h. absurd (omega (arith, one)),
            λ h. ap (λ (z : CpHdr × Input). z.1) (ticks-off k _ _ off) ∙ up,
          )
      | inr more ↦
          let (run, less, same, num) = running more in
          (
            λ h. (later run).0 (omega (arith, less)) ∙ same,
            λ h. (later run).1 (omega (arith, less)) ∙ rw (num, same) refl,
          )
    ]
