-- ===== src/Ts/Continuity.antt =====
-- src/ts.c: the continuity counter of the packets of a PID.
use demuxfs.Prelude.{
  ◌+◌, ◌%◌, ◌<◌, ◌≡◌, ◌≢◌, Bool, true, false, not, ◌&&◌, ◌||◌, ◌==◌, if◌then◌else◌, arith,
}
use demuxfs.Buffer.{Buffer, buffer_reset_size}
use demuxfs.Ts.Header.{TsHeader}

-- The answer and the buffer behind it. The difference of the two counters is an int.
unfoldable pub continuity_counter_is_ok : TsHeader → Buffer → Bool × Buffer
continuity_counter_is_ok header b =
    let last_cc = b.continuity_counter in
    let this_cc = header.continuity_counter in
    if last_cc == this_cc
    then (false, b)
    else if not (b.current_size == 0)
    then if last_cc == 15 && not (this_cc == 0)
        || not (this_cc == 0) && not (this_cc == last_cc + 1)
      then (false, buffer_reset_size b)
      else (true, b)
    else (true, b)

-- For counters of four bits: a repeated counter is refused and leaves the buffer alone. Any other
-- counter is taken while the buffer is empty. While it is not, the counter is taken if it follows the
-- last one modulo 16, and it is refused and the buffer emptied if it neither does nor is 0.
pub continuity_counter_is_ok_lem :
    (header : TsHeader) (b : Buffer)
    → header.continuity_counter < 16
    → b.continuity_counter < 16
    → (b.continuity_counter ≡ header.continuity_counter
        → continuity_counter_is_ok header b ≡ (false, b))
      × (b.continuity_counter ≢ header.continuity_counter
          → b.current_size ≡ 0
          → continuity_counter_is_ok header b ≡ (true, b))
      × (header.continuity_counter ≡ (b.continuity_counter + 1) % 16
          → continuity_counter_is_ok header b ≡ (true, b))
      × (b.current_size ≢ 0
          → b.continuity_counter ≢ header.continuity_counter
          → header.continuity_counter ≢ 0
          → header.continuity_counter ≢ (b.continuity_counter + 1) % 16
          → continuity_counter_is_ok header b ≡ (false, buffer_reset_size b))
unfolding continuity_counter_is_ok
continuity_counter_is_ok_lem header b h k =
    (λ e. ground arith, λ ne z. ground arith, λ e. ground arith, λ nz ne n0 gap. ground arith)

-- A counter of 0 is always taken when the last one was not 0, whatever packets were lost between: the
-- gap goes unseen and the bytes that the buffer holds stay.
pub continuity_gap_to_zero :
    (header : TsHeader) (b : Buffer)
    → header.continuity_counter ≡ 0
    → b.continuity_counter ≢ 0
    → continuity_counter_is_ok header b ≡ (true, b)
unfolding continuity_counter_is_ok
continuity_gap_to_zero header b z ne = ground arith
