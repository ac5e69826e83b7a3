-- ===== src/Smpp/Sequence.antt =====
-- The sequence numbers that as_smpp_get_sequence_no hands out.
use as_smpp.Prelude.{ℕ, zero, suc, ◌+◌, ◌-◌, ◌%◌, ◌<◌, ◌≡◌, ◌≤◌, ◌↔◌, arith}
use as_smpp.Session.{Session}
use as_smpp.Smpp.{get_sequence_no, int32_max}

-- The session after `k` calls, and the number that the next call hands out.
unfoldable pub after_calls : ℕ → Session → Session
after_calls zero s = s
after_calls (suc k) s = (get_sequence_no (after_calls k s)).1

unfoldable pub nth_number : ℕ → Session → ℕ
nth_number k s = (get_sequence_no (after_calls k s)).0

-- How many numbers there are before they start again: 1 up to 0x7ffffffe.
abbrev pub period : ℕ
period = 0x7fff_fffe

after_calls_number :
    (k : ℕ) (s : Session)
    → 0 < s.sequence_no
    → s.sequence_no < int32_max
    → (after_calls k s).sequence_no ≡ (s.sequence_no - 1 + k) % period + 1
unfolding after_calls get_sequence_no
after_calls_number zero s lo hi = omega arith
after_calls_number (suc k) s lo hi = let ih = after_calls_number k s lo hi in ground (arith, ih)

-- From a number between 1 and 0x7ffffffe on, the numbers that get_sequence_no hands out run up to
-- 0x7ffffffe and start again at 1.
nth_number_lem :
    (k : ℕ) (s : Session)
    → 0 < s.sequence_no
    → s.sequence_no < int32_max
    → nth_number k s ≡ (s.sequence_no - 1 + k) % period + 1
unfolding nth_number get_sequence_no
nth_number_lem k s lo hi = after_calls_number k s lo hi

-- From a number between 1 and 0x7ffffffe on: every number that get_sequence_no hands out lies between 1
-- and 0x7ffffffe, and two calls hand out the same number exactly where the counts of the calls before
-- them agree modulo 0x7ffffffe.
pub nth_number_cycle :
    (j k : ℕ) (s : Session)
    → 0 < s.sequence_no
    → s.sequence_no < int32_max
    → (0 < nth_number j s)
      × (nth_number j s ≤ period)
      × ((nth_number j s ≡ nth_number k s) ↔ (j % period ≡ k % period))
nth_number_cycle j k s lo hi =
    let at_j = nth_number_lem j s lo hi in
    let at_k = nth_number_lem k s lo hi in
    (
      omega (arith, at_j),
      omega (arith, at_j),
      ((λ e. omega (arith, at_j, at_k, e)), λ e. omega (arith, at_j, at_k, e)),
    )
