-- ===== src/C2h/Entry.antt =====
-- The fields of a completion entry.
use qdmav.Prelude.{
  ℕ, ◌+◌, ◌*◌, ◌/◌, ◌%◌, ◌^◌, ◌<◌, ◌≡◌, refl, arith, Bool, true, false, not, ◌&&◌, ◌||◌, ◌==◌, bit,
  if◌then◌else◌,
}
use qdmav.Prelude.Errors.{Result, ok, err, einval, is_ok}
use qdmav.Descq.{Descq}
use qdmav.C2h.{flag, parse_cmpl_entry}

bit_lt : (b : Bool) → bit b < 2
bit_lt true = omega arith
bit_lt false = omega arith

bit_test : (b : Bool) → (bit b == 1) ≡ b
bit_test true = refl
bit_test false = refl

-- An entry as the device writes it, with what is left of the word above.
unfoldable pub entry : Bool → Bool → Bool → Bool → ℕ → ℕ → ℕ
entry format color error used len rest =
    bit format + bit color * 2 + bit error * 2 ^ 2 + bit used * 2 ^ 3 + len * 2 ^ 4 + rest * 2 ^ 20

flag-entry : (k w : ℕ) (b : Bool) → w / 2 ^ k % 2 ≡ bit b → flag k w ≡ b
unfolding flag
flag-entry k w b h = rw h (bit_test b)

-- The flags of every entry are read as the device wrote them. The length counts where the entry has
-- the format with a length and used a descriptor; the queue goes on unless the entry reports an
-- error, has the other format, or used no descriptor on a queue without user data, and otherwise is
-- halted.
pub parse_cmpl_entry_fields :
    (q : Descq) (format color error used : Bool) (len rest : ℕ)
    → len < 2 ^ 16
    → let (rv, q', cmpl) = parse_cmpl_entry q (entry format color error used len rest) in
      (cmpl ≡ record {
        format = format;
        color = color;
        err = error;
        desc_used = used;
        len = if not format && used then len else 0;
      })
      × (is_ok rv ≡ not (error || format || not used && not q.conf.cmpl_udd_en))
      × (q' ≡ (if is_ok rv then q else record q { failed = true }))
unfolding parse_cmpl_entry entry
parse_cmpl_entry_fields q format color error used len rest h =
    let w = entry format color error used len rest in
    let bf = bit_lt format in
    let bc = bit_lt color in
    let be = bit_lt error in
    let bu = bit_lt used in
    let f0 = flag-entry 0 w format (omega (arith, bf, bc, be, bu)) in
    let f1 = flag-entry 1 w color (omega (arith, bf, bc, be, bu)) in
    let f2 = flag-entry 2 w error (omega (arith, bf, bc, be, bu)) in
    let f3 = flag-entry 3 w used (omega (arith, bf, bc, be, bu)) in
    let l : w / 2 ^ 4 % 2 ^ 16 ≡ len = omega (arith, bf, bc, be, bu) in
    rw (f0, f1, f2, f3, l)
      (
        refl,
        result (error || format || not used && not q.conf.cmpl_udd_en),
        halted (error || format || not used && not q.conf.cmpl_udd_en),
      )
  where
    result : (b : Bool) → let r : Result ℕ = if b then err einval else ok 0 in is_ok r ≡ not b
    result true = refl
    result false = refl

    halted :
        (b : Bool)
        → let r : Result ℕ = if b then err einval else ok 0 in
          (if b then record q { failed = true } else q)
          ≡ (if is_ok r then q else record q { failed = true })
    halted true = refl
    halted false = refl
