-- ===== src/Streams/Stream/Reading.antt =====
-- What Read copies: the bytes of the stream in their order, in boundedly many rounds.
use mpquic_sbd.Base.{
  ℕ, zero, suc, ◌+◌, ◌-◌, ◌≤◌, ◌≡◌, ◌≢◌, refl, sym, ◌∙◌, ap, inl, inr, Bool, true, false, ◌||◌,
  ◌++◌, none, some, ltb, ◌==◌, length, if◌then◌else◌, Bool-cases, Option-cases, arith,
  length-append,
}
use mpquic_sbd.Flow.Manager.{Manager}
use mpquic_sbd.Streams.Sorter.Delivery.{segment, segment-cong, segment-append}
use mpquic_sbd.Streams.Stream
use mpquic_sbd.Streams.Stream.{
  Stream, Turn, Ending, leave_frame, read_frame, read_round, read_rounds, read,
}
use mpquic_sbd.Streams.Stream.Rounds.{IsReading, IsTurn, queued, read_round-IsTurn}

module _ (stream : ℕ → ℕ) where
  -- What a call of Read does to the stream, up to where it returns or waits; its rounds are enough.
  pub record IsRead (s : Stream) (want : ℕ) (t : Turn) : Type 0 where
    pub reading : IsReading stream t.after
    pub bytes : t.bytes ≡ segment stream s.read_offset (length t.bytes)
    pub offset : t.after.read_offset ≡ s.read_offset + length t.bytes
    pub few : length t.bytes ≤ want
    pub written : t.after.write_offset ≡ s.write_offset
    pub pending : t.after.data_for_writing ≡ s.data_for_writing
    pub enough : (e : Ending) × (t.ending ≡ some e) × (e ≢ Stream.fuel_spent)

  ends-IsRead :
      (s : Stream) (want : ℕ) (flow : Manager) (e : Ending)
      → IsReading stream s
      → e ≢ Stream.fuel_spent
      → IsRead s want (Stream.ends s flow e)
  ends-IsRead s want flow e r n = record {
    reading = r;
    bytes = refl;
    offset = omega arith;
    written = refl;
    pending = refl;
    few = omega arith;
    enough = (e, refl, n);
  }

  -- A round with no ending, and the rest of the call.
  after_bytes-IsRead :
      (s : Stream) (want : ℕ) (t u : Turn)
      → IsTurn stream s want t
      → IsRead t.after (want - length t.bytes) u
      → IsRead s want (Stream.after_bytes t.bytes u)
  after_bytes-IsRead s want t u p q = record {
    reading = q.reading;
    bytes =
        ap (λ l. l ++ u.bytes) p.bytes
        ∙ ap (λ l. segment stream s.read_offset (length t.bytes) ++ l)
            (q.bytes ∙ segment-cong stream _ _ _ _ p.offset refl)
        ∙ segment-append stream s.read_offset (length t.bytes) (length u.bytes)
        ∙ segment-cong stream _ _ _ _ refl (sym (length-append t.bytes u.bytes));
    offset = omega (arith, p.offset, q.offset, length-append t.bytes u.bytes);
    written = q.written ∙ p.written;
    pending = q.pending ∙ p.pending;
    few = omega (arith, p.few, q.few, length-append t.bytes u.bytes);
    enough = q.enough;
  }

  read_rounds-IsRead :
      (fuel : ℕ) (started : Bool) (expired : ℕ → Bool) (now want : ℕ) (s : Stream) (flow : Manager)
      → IsReading stream s
      → want + queued s ≤ fuel
      → IsRead s want (read_rounds fuel started expired now want s flow)
  unfolding read_rounds
  read_rounds-IsRead zero started expired now want s flow r enough =
      ends-IsRead s want flow _ r (λ c. ground arith)
  read_rounds-IsRead (suc fuel) started expired now want s flow r enough =
      elim (Bool-cases (want == 0)) [
        | inl e ↦ rw (read_rounds, e) (ends-IsRead s want flow Stream.full r (λ c. ground arith))
        | inr e ↦
            let t = read_round started (expired fuel) now want s flow in
            let p =
              read_round-IsTurn stream started (expired fuel) now want s flow r (ground arith) in
            elim (Option-cases t.ending) [
              | inr (end, ended) ↦
                  rw (read_rounds, e, ended)
                    record {
                      reading = p.reading;
                      bytes = p.bytes;
                      offset = p.offset;
                      few = p.few;
                      written = p.written;
                      pending = p.pending;
                      enough = (end, ended, λ c. p.fuelled (ended ∙ ap some c));
                    }
              | inl goes_on ↦
                  rw (read_rounds, e, goes_on)
                    (after_bytes-IsRead s want t _ p (
                      read_rounds-IsRead fuel (started || ltb 0 (length t.bytes)) expired now
                        (want - length t.bytes) t.after t.flow p.reading
                        (less_left s t want fuel p goes_on enough)))
            ]
      ]
    where
      less_left :
          (s : Stream) (t : Turn) (want fuel : ℕ)
          → IsTurn stream s want t
          → t.ending ≡ none
          → want + queued s ≤ suc fuel
          → want - length t.bytes + queued t.after ≤ fuel
      less_left s t want fuel p goes_on enough = elim p.less [
        | inl n ↦ absurd (n goes_on)
        | inr l ↦ omega (arith, l, p.few)
      ]

  either-IsRead :
      (b : Bool) (s : Stream) (want : ℕ) {t u : Turn}
      → IsRead s want t
      → IsRead s want u
      → IsRead s want (if b then t else u)
  either-IsRead true s want t u = t
  either-IsRead false s want t u = u

  -- If the frames that are queued hold bytes of one stream and Read is not before the read position, then
  -- the bytes that a call of Read copies, up to where it returns or waits, are the next ones of the stream,
  -- no more than the buffer holds, it moves the read offset by as many, and the rounds counted are enough.
  pub read-IsRead :
      (expired : ℕ → Bool) (now want : ℕ) (s : Stream) (flow : Manager)
      → IsReading stream s
      → IsRead s want (read expired now want s flow)
  unfolding read
  read-IsRead expired now want s flow r =
      either-IsRead (s.cancelled || s.reset_locally) s want
        (ends-IsRead s want flow _ r (λ c. ground arith))
        (either-IsRead s.finished_reading s want (ends-IsRead s want flow _ r (λ c. ground arith))
          (read_rounds-IsRead (want + queued s) false expired now want s flow r (omega arith)))
