-- ===== src/WsStream/Bytes.antt =====
-- The bytes that a reader sees are those of the binary messages, in order.
use mathlib.Core.List.{append_assoc}
use mesquitte_client.Base.{
  ℕ, zero, suc, ◌+◌, ◌≤◌, ◌≡◌, List, [], ◌∷◌, ◌++◌, length, take, drop, nat_beq, min, arith, inl,
  inr, refl, ap, sym, subst, ◌∙◌, take-append-drop, length-drop, Bool-cases,
}
use mesquitte_client.WsStream.Types.{
  io, connection_closed, already_closed, other, binary, close, skipped, Answer, waits, ended, item,
  fails, ReadState, WsByteStream,
}
use mesquitte_client.WsStream.Reading.{
  Filled, unfilled, no_more, filled, failed, fill, fill_buf_with_next_msg, Read, poll_read_loop,
  poll_read, unready, got, broken, read_ready,
}

-- The bytes of the binary messages up to the end of the stream.
abbrev pub payloads : List Answer → List ℕ
payloads [] = []
payloads (waits ∷ inner) = payloads inner
payloads (ended ∷ inner) = []
payloads (item (binary msg) ∷ inner) = msg ++ payloads inner
payloads (item close ∷ inner) = []
payloads (item skipped ∷ inner) = payloads inner
payloads (fails (io e) ∷ inner) = payloads inner
payloads (fails connection_closed ∷ inner) = []
payloads (fails already_closed ∷ inner) = []
payloads (fails (other e) ∷ inner) = payloads inner

-- What is still to be read, from the state and the messages to come.
abbrev pub ahead : List Answer → ReadState → List ℕ
ahead inner ReadState.pending = payloads inner
ahead inner ReadState.terminated = []
ahead inner (ReadState.ready bytes amt_read) = drop amt_read bytes ++ payloads inner

abbrev pub unread : WsByteStream → List ℕ
unread s = ahead s.inner s.read

-- What a read hands over.
abbrev pub bytes_of : Read → List ℕ
bytes_of (got bytes) = bytes
bytes_of _ = []

-- The slice `data[amt_read..]` is in bounds.
abbrev pub InBounds : ReadState → Type 0
InBounds (ReadState.ready bytes amt_read) = amt_read ≤ length bytes
InBounds _ = Unit

fill-ahead :
    (inner : List Answer)
    → ahead (fill inner ReadState.pending).1 (fill inner ReadState.pending).2 ≡ payloads inner
unfolding fill
fill-ahead [] = refl
fill-ahead (waits ∷ inner) = refl
fill-ahead (ended ∷ inner) = refl
fill-ahead (item (binary msg) ∷ inner) = refl
fill-ahead (item close ∷ inner) = refl
fill-ahead (item skipped ∷ inner) = fill-ahead inner
fill-ahead (fails (io e) ∷ inner) = refl
fill-ahead (fails connection_closed ∷ inner) = refl
fill-ahead (fails already_closed ∷ inner) = refl
fill-ahead (fails (other e) ∷ inner) = refl

fill-InBounds : (inner : List Answer) → InBounds (fill inner ReadState.pending).2
unfolding fill
fill-InBounds [] = tt
fill-InBounds (waits ∷ inner) = tt
fill-InBounds (ended ∷ inner) = tt
fill-InBounds (item (binary msg) ∷ inner) = omega arith
fill-InBounds (item close ∷ inner) = tt
fill-InBounds (item skipped ∷ inner) = fill-InBounds inner
fill-InBounds (fails (io e) ∷ inner) = tt
fill-InBounds (fails connection_closed ∷ inner) = tt
fill-InBounds (fails already_closed ∷ inner) = tt
fill-InBounds (fails (other e) ∷ inner) = tt

drop-nil : (n : ℕ) → drop {A = ℕ} n [] ≡ []
drop-nil zero = refl
drop-nil (suc n) = refl

pub drop-drop : (n m : ℕ) (xs : List ℕ) → drop m (drop n xs) ≡ drop (n + m) xs
drop-drop zero m xs = let e : 0 + m ≡ m = omega arith in rw e
drop-drop (suc n) m [] = drop-nil m ∙ sym (drop-nil (suc n + m))
drop-drop (suc n) m (x ∷ xs) =
    let e : suc n + m ≡ suc (n + m) = omega arith in rw e (drop-drop n m xs)

pub take_all : (n : ℕ) (xs : List ℕ) → n ≡ length xs → take n xs ≡ xs
take_all zero [] h = refl
take_all zero (x ∷ xs) h = absurd (omega arith)
take_all (suc n) [] h = absurd (omega arith)
take_all (suc n) (x ∷ xs) h = ap (◌∷◌ x) (take_all n xs (omega arith))

read_ready-unread :
    (remaining : ℕ) (bytes : List ℕ) (amt_read : ℕ) (s : WsByteStream)
    → bytes_of (read_ready remaining bytes amt_read s).0
        ++ unread (read_ready remaining bytes amt_read s).1
      ≡ drop amt_read bytes ++ payloads s.inner
read_ready-unread remaining bytes amt_read s =
    let data_in = drop amt_read bytes in
    let len = min remaining (length data_in) in
    elim (Bool-cases (nat_beq len (length data_in))) [
      | inl all ↦ rw (all, take_all len data_in (ground arith))
      | inr part ↦
          rw (part, ← drop-drop amt_read len bytes)
            (sym (append_assoc (take len data_in) (drop len data_in) (payloads s.inner))
              ∙ ap (λ xs. xs ++ payloads s.inner) (take-append-drop len data_in))
    ]

read_ready-InBounds :
    (remaining : ℕ) (bytes : List ℕ) (amt_read : ℕ) (s : WsByteStream)
    → amt_read ≤ length bytes
    → InBounds (read_ready remaining bytes amt_read s).1.read
read_ready-InBounds remaining bytes amt_read s h = ground (arith, length-drop amt_read bytes)

-- One message more in the state is one less to come.
pub unread-fill_buf :
    (s : WsByteStream) → s.read ≡ ReadState.pending → unread (fill_buf_with_next_msg s).1 ≡ unread s
unfolding fill_buf_with_next_msg
unread-fill_buf s e = ground (arith, fill-ahead s.inner)

pub InBounds-fill_buf :
    (s : WsByteStream) → s.read ≡ ReadState.pending → InBounds (fill_buf_with_next_msg s).1.read
unfolding fill_buf_with_next_msg
InBounds-fill_buf s e = subst (λ r. InBounds (fill s.inner r).2) (sym e) (fill-InBounds s.inner)

-- A read hands over the next bytes, and leaves the rest.
abbrev pub Faithful : WsByteStream → Read × WsByteStream → Type 0
Faithful s (answer, s') = (bytes_of answer ++ unread s' ≡ unread s) × InBounds s'.read

round_Faithful :
    (s s' : WsByteStream) (again : Read × WsByteStream)
    → unread s' ≡ unread s
    → InBounds s'.read
    → Faithful s again
    → (answer : Filled)
    → Faithful s (elim answer [
      | unfilled ↦ (unready, s')
      | no_more ↦ again
      | filled ↦ again
      | failed e ↦ (broken e, s')
    ])
round_Faithful s s' again h b f unfilled = (h, b)
round_Faithful s s' again h b f no_more = f
round_Faithful s s' again h b f filled = f
round_Faithful s s' again h b f (failed e) = (h, b)

module _ (remaining : ℕ) where
  loop_Faithful :
      (fuel : ℕ) (s : WsByteStream) (r : ReadState)
      → s.read ≡ r
      → InBounds r
      → Faithful s (poll_read_loop fuel remaining s r)
  unfolding poll_read_loop fill_buf_with_next_msg
  loop_Faithful zero s r e b = (refl, subst InBounds (sym e) b)
  loop_Faithful (suc fuel) s (ReadState.ready bytes n) e b = (
    read_ready-unread remaining bytes n s ∙ ap (ahead s.inner) (sym e),
    read_ready-InBounds remaining bytes n s b,
  )
  loop_Faithful (suc fuel) s ReadState.terminated e b = (refl, subst InBounds (sym e) b)
  loop_Faithful (suc fuel) s ReadState.pending e b =
      let s' = (fill_buf_with_next_msg s).1 in
      let fits = InBounds-fill_buf s e in
      let (same, inside) = loop_Faithful fuel s' s'.read refl fits in
      let before = unread-fill_buf s e in
      round_Faithful s s' _ before fits (same ∙ before, inside) (fill s.inner s.read).0

-- Reads of any sizes, and what they hand over together.
unfoldable pub run_reads : List ℕ → WsByteStream → List ℕ × WsByteStream
run_reads [] s = ([], s)
run_reads (n ∷ ns) s =
    let (answer, s') = poll_read n s in
    let (later, s'') = run_reads ns s' in (bytes_of answer ++ later, s'')

pub poll_read-Faithful : (n : ℕ) (s : WsByteStream) → InBounds s.read → Faithful s (poll_read n s)
unfolding poll_read
poll_read-Faithful n s b = loop_Faithful n 2 s s.read refl b

-- From a state whose slice into the message is in bounds, whatever the sizes of the reads and
-- whatever the inner stream answers in between, the bytes that the reads hand over, followed by
-- those that are still to be read, are the bytes that were to be read at the start, which are
-- those of the binary messages up to the end of the stream: none is lost, repeated or moved. The
-- slice stays in bounds.
pub run_reads_lem :
    (ns : List ℕ) (s : WsByteStream)
    → InBounds s.read
    → ((run_reads ns s).0 ++ unread (run_reads ns s).1 ≡ unread s)
      × InBounds (run_reads ns s).1.read
unfolding run_reads
run_reads_lem [] s b = (refl, b)
run_reads_lem (n ∷ ns) s b =
    let (answer, s') = poll_read n s in
    let (first, inside) = poll_read-Faithful n s b in
    let (later, last) = run_reads_lem ns s' inside in
    (append_assoc (bytes_of answer) _ _ ∙ ap (◌++◌ (bytes_of answer)) later ∙ first, last)
