-- ===== src/BitWriter/Cursor/Rounds.antt =====
-- The rounds of a write through a cursor, one by one.
use storm_net.Prelude.{
  ℕ, zero, suc, ◌+◌, ◌-◌, ◌*◌, ◌/◌, ◌^◌, ◌≤◌, ◌<◌, ◌≡◌, refl, ap, sym, ◌∙◌, List, ◌++◌, true, false,
  min, ◌==◌, ltb, leb, append_assoc, length, take, subst, drop, length-take_le, length-drop,
  take-append-drop, arith,
}
use storm_net.Bits.{u64, to_bits, to_bits-chunk}
use storm_net.Result.{Result, ok}
use storm_net.BitWriter.{BitWriter}
use storm_net.BitWriter.Content.{bits_of, IsValid}
use storm_net.BitWriter.Cursor.{Cursor, replace_bits, modify_at, write_cursor}
use storm_net.BitWriter.Cursor.Place.{
  IsAt, Replaced, Writes, change-Replaced, Replaced-then, Replaced-nothing,
}

-- The rounds of the recursion.
pub write_cursor-fresh :
    (depth : ℕ) (c : Cursor) (val n : ℕ) (w : BitWriter)
    → 0 < n
    → n ≤ c.size
    → n < 64
    → c.bit ≡ 8
    → u64 (c.byte + 1) < length w.buffer
    → write_cursor (suc depth) c val n w
      ≡ write_cursor depth
          (record {
            byte = u64 (c.byte + 1);
            bit = min 8 n;
            size = u64 (c.size + (8 - min 8 n));
            wrote = true;
            total_bits = c.total_bits;
          })
          (val / 2 ^ 8)
          (n - 8)
          (record w {
            buffer = modify_at (u64 (c.byte + 1)) (replace_bits 0 (min 8 n) val) w.buffer;
          })
unfolding write_cursor
write_cursor-fresh depth c val n w some_bits room word full inside =
    let a : (n == 0) ≡ false = ground arith in
    let b : ltb c.size n ≡ false = ground arith in
    let d : leb 64 n ≡ false = ground arith in
    let e : ((8 - c.bit) == 0) ≡ true = ground arith in
    let f : ltb (u64 (c.byte + 1)) (length w.buffer) ≡ true = ground arith in
    rw (a, b, d, e, f) refl

pub write_cursor-filled :
    (depth : ℕ) (c : Cursor) (val n : ℕ) (w : BitWriter)
    → 0 < n
    → n ≤ c.size
    → n < 64
    → c.bit < 8
    → c.byte < length w.buffer
    → write_cursor (suc depth) c val n w
      ≡ write_cursor depth
          (record {
            byte = c.byte;
            bit = min 8 (c.bit + n);
            size = c.size - min n (8 - c.bit);
            wrote = true;
            total_bits = c.total_bits;
          })
          (val / 2 ^ (8 - c.bit))
          (n - min n (8 - c.bit))
          (record w {
            buffer = modify_at c.byte (replace_bits c.bit (min n (8 - c.bit)) val) w.buffer;
          })
unfolding write_cursor
write_cursor-filled depth c val n w some_bits room word free inside =
    let a : (n == 0) ≡ false = ground arith in
    let b : ltb c.size n ≡ false = ground arith in
    let d : leb 64 n ≡ false = ground arith in
    let e : ((8 - c.bit) == 0) ≡ false = ground arith in
    let f : ltb c.byte (length w.buffer) ≡ true = ground arith in rw (a, b, d, e, f) refl

-- A round that has written the first bits, and the rounds that write the others.
pub Writes-then :
    (s n val : ℕ) (w w' : BitWriter) (result rest : Result (Cursor × BitWriter))
    (place room most : ℕ) (pre behind post : List ℕ)
    → Replaced w w' pre (to_bits (min n s) val) behind
    → result ≡ rest
    → Writes rest w' place room most
        (pre ++ to_bits (min n s) val)
        (to_bits (n - s) (val / 2 ^ s))
        post
    → Writes result w place room most pre (to_bits n val) post
Writes-then s n val w w' result rest place room most pre behind post first e
      (c', w'', done, is_at, more) =
    (
      c',
      w'',
      e ∙ done,
      is_at,
      rw (to_bits-chunk s n val) (
          Replaced-then w w' w'' pre (to_bits (min n s) val) (to_bits (n - s) (val / 2 ^ s)) behind
            post first more),
    )

pub Writes-nothing :
    (depth : ℕ) (c : Cursor) (val n : ℕ) (w : BitWriter) (place room most : ℕ)
    (pre mid post : List ℕ)
    → n ≡ 0
    → IsAt c place room most
    → IsValid w
    → length mid ≡ n
    → bits_of w ≡ pre ++ (mid ++ post)
    → Writes (write_cursor depth c val n w) w place room most pre (to_bits n val) post
unfolding write_cursor
Writes-nothing depth c val n w place room most pre mid post none_left at v middle e = (
  c,
  w,
  ap (λ (m : ℕ). write_cursor depth c val m w) none_left ∙ stops depth,
  at,
  rw none_left (Replaced-nothing w pre mid post v (middle ∙ none_left) e),
)
  where
    stops : (depth : ℕ) → write_cursor depth c val 0 w ≡ ok (c, w)
    stops zero = refl
    stops (suc depth) = refl

-- The bits that are left to replace.
pub bits_left :
    (s n : ℕ) (w w' : BitWriter) (pre mid first post : List ℕ)
    → length mid ≡ n
    → Replaced w w' pre first (drop (min n s) mid ++ post)
    → (length (drop (min n s) mid) ≡ n - s)
      × (bits_of w' ≡ (pre ++ first) ++ (drop (min n s) mid ++ post))
bits_left s n w w' pre mid first post h r = (
  omega (arith, length-drop (min n s) mid),
  r.content ∙ sym (append_assoc pre first (drop (min n s) mid ++ post)),
)

pub Writes-same :
    (result : Result (Cursor × BitWriter)) (w : BitWriter) (place place' room room' most : ℕ)
    (pre bits post : List ℕ)
    → place ≡ place'
    → room ≡ room'
    → Writes result w place room most pre bits post
    → Writes result w place' room' most pre bits post
Writes-same result w place place' room room' most pre bits post e e' (c, w', done, at, r) = (
  c,
  w',
  done,
  record {
    some_bit = at.some_bit;
    one_byte = at.one_byte;
    byte_word = at.byte_word;
    here = omega (arith, at.here);
    room_left = omega (arith, at.room_left);
    bounded = at.bounded;
  },
  r,
)

-- The bits that a round replaces.
pub round-Replaced :
    (i s k free n val : ℕ) (w : BitWriter) (pre mid post : List ℕ)
    → k ≡ min n free
    → IsValid w
    → s + free ≤ 8
    → 0 < k
    → length pre ≡ i * 8 + s
    → length mid ≡ n
    → bits_of w ≡ pre ++ (mid ++ post)
    → (i < length w.buffer)
      × Replaced w
          (record w { buffer = modify_at i (replace_bits s k val) w.buffer })
          pre
          (to_bits (min n free) val)
          (drop (min n free) mid ++ post)
round-Replaced i s k free n val w pre mid post e v h some_bits front middle p =
    let (inside, r) =
      change-Replaced i s k val w pre (take k mid) (drop k mid ++ post) v (omega arith) some_bits
        front (length-take_le k mid (omega arith))
        (p
          ∙ ap (λ (t : List ℕ). pre ++ (t ++ post)) (sym (take-append-drop k mid))
          ∙ ap (λ (t : List ℕ). pre ++ t) (append_assoc (take k mid) (drop k mid) post)) in
    (
      inside,
      subst
          (λ (m : ℕ).
            Replaced w (record w { buffer = modify_at i (replace_bits s k val) w.buffer }) pre
              (to_bits m val) (drop m mid ++ post))
          e r,
    )
