-- ===== src/WsStream/Buffered.antt =====
-- `poll_fill_buf` and `consume`, and when a reader sees the end of the input.
use mathlib.Core.List.{append_assoc}
use mesquitte_client.Base.{
  ℕ, zero, suc, ◌+◌, ◌%◌, ◌≤◌, ◌<◌, All, ◌≡◌, List, [], ◌∷◌, ◌++◌, length, take, drop, nat_beq, min,
  arith, inl, inr, refl, ap, sym, subst, ◌∙◌, take-append-drop, length-drop, Bool-cases,
}
use mesquitte_client.WsStream.Types.{
  binary, Answer, item, Message, WsError, ReadState, WriteState, WsByteStream,
}
use mesquitte_client.WsStream.Reading.{
  Filled, unfilled, no_more, filled, failed, fill, fill_buf_with_next_msg, Read, poll_read_loop,
  poll_read, poll_fill_buf_loop, poll_fill_buf, unready, got, broken, consume, consume_ready,
  usize_size,
}
use mesquitte_client.WsStream.Bytes.{
  payloads, ahead, unread, InBounds, unread-fill_buf, InBounds-fill_buf, drop-drop, take_all,
}

-- The length of a message is a usize.
abbrev pub IsUsize : Answer → Type 0
IsUsize (item (binary msg)) = length msg < usize_size
IsUsize _ = Unit

abbrev pub IsHeld : ReadState → Type 0
IsHeld (ReadState.ready bytes n) = length bytes < usize_size
IsHeld _ = Unit

-- Every message that is read or is to come has a length that is a usize.
abbrev pub IsMeasured : WsByteStream → Type 0
IsMeasured s = IsHeld s.read × All IsUsize s.inner

fill-IsMeasured :
    (inner : List Answer)
    → All IsUsize inner
    → let (_, rest, read) = fill inner ReadState.pending in IsHeld read × All IsUsize rest
unfolding fill
fill-IsMeasured [] h = (tt, tt)
fill-IsMeasured (Answer.waits ∷ inner) (_, h) = (tt, h)
fill-IsMeasured (Answer.ended ∷ inner) (_, h) = (tt, h)
fill-IsMeasured (item (binary msg) ∷ inner) (small, h) = (small, h)
fill-IsMeasured (item Message.close ∷ inner) (_, h) = (tt, h)
fill-IsMeasured (item Message.skipped ∷ inner) (_, h) = fill-IsMeasured inner h
fill-IsMeasured (Answer.fails (WsError.io e) ∷ inner) (_, h) = (tt, h)
fill-IsMeasured (Answer.fails WsError.connection_closed ∷ inner) (_, h) = (tt, h)
fill-IsMeasured (Answer.fails WsError.already_closed ∷ inner) (_, h) = (tt, h)
fill-IsMeasured (Answer.fails (WsError.other e) ∷ inner) (_, h) = (tt, h)

fill_buf-IsMeasured :
    (s : WsByteStream)
    → s.read ≡ ReadState.pending
    → All IsUsize s.inner
    → IsMeasured (fill_buf_with_next_msg s).1
unfolding fill_buf_with_next_msg
fill_buf-IsMeasured s e h =
    subst (λ r. IsHeld (fill s.inner r).2 × All IsUsize (fill s.inner r).1) (sym e)
      (let (held, rest) = fill-IsMeasured s.inner h in (held, rest))

consume_ready-ahead :
    (amt n : ℕ) (bytes : List ℕ) (inner : List Answer)
    → n ≤ length bytes
    → length bytes < usize_size
    → let k = min amt (length (drop n bytes)) in
      (take k (drop n bytes) ++ ahead inner (consume_ready k (ReadState.ready bytes n))
        ≡ drop n bytes ++ payloads inner)
      × InBounds (consume_ready k (ReadState.ready bytes n))
consume_ready-ahead amt n bytes inner b small =
    let k = min amt (length (drop n bytes)) in
    let moved = min (length bytes) ((n + k) % usize_size) in
    let size = length-drop n bytes in
    let exact : (n + k) % usize_size ≡ n + k = omega (arith, size) in
    elim (Bool-cases (nat_beq moved (length bytes))) [
      | inl all ↦
          let whole : k ≡ length (drop n bytes) = ground arith in
          rw (all, take_all k (drop n bytes) whole) (refl, tt)
      | inr part ↦
          let same : moved ≡ n + k = ground arith in
          rw (part, same, ← drop-drop n k bytes)
            (
              sym (append_assoc (take k (drop n bytes)) (drop k (drop n bytes)) (payloads inner))
                  ∙ ap (λ xs. xs ++ payloads inner) (take-append-drop k (drop n bytes)),
              ground arith,
            )
    ]

take-nil : (n : ℕ) → take {A = ℕ} n [] ≡ []
take-nil zero = refl
take-nil (suc n) = refl

-- A `consume` of any number of the shown bytes takes them off what is still to be read.
abbrev pub Consumes : List ℕ → WsByteStream → Type 0
Consumes shown s =
    (amt : ℕ)
    → let k = min amt (length shown) in
      (take k shown ++ unread (consume k s) ≡ unread s) × InBounds (consume k s).read

-- A view takes nothing off, and what it shows is there to be consumed.
abbrev pub Shows : WsByteStream → Read × WsByteStream → Type 0
Shows s (got shown, s') = (unread s' ≡ unread s) × InBounds s'.read × Consumes shown s'
Shows s (_, s') = (unread s' ≡ unread s) × InBounds s'.read

Consumes-ready :
    (n : ℕ) (bytes : List ℕ) (s : WsByteStream)
    → s.read ≡ ReadState.ready bytes n
    → n ≤ length bytes
    → length bytes < usize_size
    → Consumes (drop n bytes) s
unfolding consume
Consumes-ready n bytes s e b small amt =
    let k = min amt (length (drop n bytes)) in
    subst
      (λ r.
        (take k (drop n bytes) ++ ahead s.inner (consume_ready k r) ≡ ahead s.inner r)
        × InBounds (consume_ready k r))
      (sym e) (consume_ready-ahead amt n bytes s.inner b small)

Consumes-terminated : (s : WsByteStream) → s.read ≡ ReadState.terminated → Consumes [] s
unfolding consume
Consumes-terminated s e amt =
    subst
      (λ r.
        (take (min amt 0) [] ++ ahead s.inner (consume_ready (min amt 0) r) ≡ ahead s.inner r)
        × InBounds (consume_ready (min amt 0) r))
      (sym e) (ap (λ xs. xs ++ []) (take-nil _), tt)

Shows-trans :
    (s s' : WsByteStream) (result : Read × WsByteStream)
    → unread s' ≡ unread s
    → Shows s' result
    → Shows s result
Shows-trans s s' (got shown, t) e (h, inside, rest) = (h ∙ e, inside, rest)
Shows-trans s s' (unready, t) e (h, rest) = (h ∙ e, rest)
Shows-trans s s' (Read.out_of_fuel, t) e (h, rest) = (h ∙ e, rest)
Shows-trans s s' (broken err, t) e (h, rest) = (h ∙ e, rest)

round_Shows :
    (s s' : WsByteStream) (again : Read × WsByteStream)
    → unread s' ≡ unread s
    → InBounds s'.read
    → Shows s again
    → (answer : Filled)
    → Shows s (elim answer [
      | unfilled ↦ (unready, s')
      | no_more ↦ again
      | filled ↦ again
      | failed e ↦ (broken e, s')
    ])
round_Shows s s' again h b f unfilled = (h, b)
round_Shows s s' again h b f no_more = f
round_Shows s s' again h b f filled = f
round_Shows s s' again h b f (failed e) = (h, b)

loop_Shows :
    (fuel : ℕ) (s : WsByteStream) (r : ReadState)
    → s.read ≡ r
    → InBounds r
    → IsHeld r
    → All IsUsize s.inner
    → Shows s (poll_fill_buf_loop fuel s r)
unfolding poll_fill_buf_loop fill_buf_with_next_msg
loop_Shows zero s r e b held small = (refl, subst InBounds (sym e) b)
loop_Shows (suc fuel) s (ReadState.ready bytes n) e b held small =
    (refl, subst InBounds (sym e) b, Consumes-ready n bytes s e b held)
loop_Shows (suc fuel) s ReadState.terminated e b held small =
    (refl, subst InBounds (sym e) b, Consumes-terminated s e)
loop_Shows (suc fuel) s ReadState.pending e b held small =
    let s' = (fill_buf_with_next_msg s).1 in
    let fits = InBounds-fill_buf s e in
    let before = unread-fill_buf s e in
    let measured = fill_buf-IsMeasured s e small in
    let again = loop_Shows fuel s' s'.read refl fits measured.0 measured.1 in
    round_Shows s s' _ before fits (Shows-trans s s' _ before again) (fill s.inner s.read).0

-- On a machine of 64 bits, from a state whose slice into the message is in bounds, and with messages whose
-- lengths fit usize, `poll_fill_buf` takes no byte off the stream, and where it shows bytes, a `consume` of
-- any number of them, but no more than were shown, takes exactly these off and stays in bounds.
pub poll_fill_buf-Shows :
    (s : WsByteStream) → InBounds s.read → IsMeasured s → Shows s (poll_fill_buf s)
unfolding poll_fill_buf
poll_fill_buf-Shows s b (held, small) = loop_Shows 2 s s.read refl b held small

-- An empty binary message makes a read of any size answer with no bytes, which stands for the end of
-- the input, although the stream goes on with all that follows.
pub empty_message_reads_as_end :
    (n : ℕ) (rest : List Answer) (w : WriteState)
    → let s : WsByteStream = record {
      inner = item (binary []) ∷ rest;
      read = ReadState.pending;
      write = w;
    } in
      ((poll_read n s).0 ≡ got [])
      × ((poll_read n s).1.read ≡ ReadState.pending)
      × (unread (poll_read n s).1 ≡ payloads rest)
unfolding poll_read poll_read_loop fill_buf_with_next_msg fill
empty_message_reads_as_end n rest w =
    let none_left : min n 0 ≡ 0 = omega arith in (rw none_left, rw none_left, rw none_left)
