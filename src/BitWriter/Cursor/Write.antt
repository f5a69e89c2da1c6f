-- ===== src/BitWriter/Cursor/Write.antt =====
-- A write through a cursor, round by round.
use storm_net.Prelude.{
  ℕ, zero, suc, ◌+◌, ◌-◌, ◌/◌, ◌^◌, ◌≤◌, ◌<◌, ◌≡◌, refl, ap, ◌∙◌, List, ◌++◌, true, min, length,
  length-append, drop, ℕ_discrete, dec_lt, arith,
}
use storm_net.Bits.{u64, to_bits, length-to_bits}
use storm_net.Result.{Result}
use storm_net.BitWriter.{BitWriter}
use storm_net.BitWriter.Content.{bits_of, IsValid}
use storm_net.BitWriter.Cursor.{Cursor, replace_bits, modify_at, write_cursor}
use storm_net.BitWriter.Cursor.Place.{IsAt, Replaced, Writes}
use storm_net.BitWriter.Cursor.Rounds.{
  write_cursor-fresh, write_cursor-filled, Writes-then, Writes-nothing, bits_left, Writes-same,
  round-Replaced,
}

-- What is asked of a write of `n` bits.
pub record Asked (c : Cursor) (n : ℕ) (w : BitWriter) (place room most : ℕ) (pre mid post : List ℕ)
    : Type 0 where
  pub fits : n ≤ room
  pub word : n < 64
  pub counted : most + 8 < 2 ^ 64
  pub sized : length w.buffer < 2 ^ 63
  pub at : IsAt c place room most
  pub valid : IsValid w
  pub front : length pre ≡ place
  pub middle : length mid ≡ n
  pub content : bits_of w ≡ pre ++ (mid ++ post)

-- The next round is asked for the rest.
Asked-next :
    (c c' : Cursor) (n s : ℕ) (w w' : BitWriter) (place room most val : ℕ) (pre mid post : List ℕ)
    → Asked c n w place room most pre mid post
    → Replaced w w' pre (to_bits (min n s) val) (drop (min n s) mid ++ post)
    → IsAt c' (place + min n s) (room - min n s) most
    → Asked c'
        (n - s)
        w'
        (place + min n s)
        (room - min n s)
        most
        (pre ++ to_bits (min n s) val)
        (drop (min n s) mid)
        post
Asked-next c c' n s w w' place room most val pre mid post a r at =
    let (long, content) = bits_left s n w w' pre mid (to_bits (min n s) val) post a.middle r in
    record {
      fits = omega (arith, a.fits);
      word = omega (arith, a.word);
      counted = a.counted;
      sized = omega (arith, r.same_size, a.sized);
      at = at;
      valid = r.valid;
      front =
          omega (
            arith,
            length-append pre (to_bits (min n s) val),
            length-to_bits (min n s) val,
            a.front,
          );
      middle = long;
      content = content;
    }

full-IsAt :
    (c : Cursor) (n size place room most : ℕ) (total_bits : ℕ)
    → IsAt c place room most
    → c.bit ≡ 8
    → 0 < n
    → n ≤ room
    → u64 (c.byte + 1) < 2 ^ 63
    → most + 8 < 2 ^ 64
    → IsAt
        (record {
          byte = u64 (c.byte + 1);
          bit = min 8 n;
          size = u64 (c.size + (8 - min 8 n));
          wrote = true;
          total_bits = total_bits;
        })
        (place + min n 8)
        (room - min n 8)
        (most + (8 - min 8 n))
full-IsAt c n size place room most total_bits at full pos fits small counted = record {
  some_bit = omega arith;
  one_byte = omega arith;
  byte_word = omega arith;
  here = omega (arith, at.here);
  room_left = omega (arith, at.room_left, at.bounded);
  bounded = omega (arith, at.bounded);
}

free-IsAt :
    (c : Cursor) (n place room most : ℕ)
    → IsAt c place room most
    → c.bit < 8
    → 0 < n
    → n ≤ room
    → IsAt
        (record {
          byte = c.byte;
          bit = min 8 (c.bit + n);
          size = c.size - min n (8 - c.bit);
          wrote = true;
          total_bits = c.total_bits;
        })
        (place + min n (8 - c.bit))
        (room - min n (8 - c.bit))
        most
free-IsAt c n place room most at free pos fits = record {
  some_bit = omega arith;
  one_byte = omega arith;
  byte_word = at.byte_word;
  here = omega (arith, at.here);
  room_left = omega (arith, at.room_left);
  bounded = omega (arith, at.bounded);
}

IsAt-weaken :
    (c : Cursor) (place room most most' : ℕ)
    → most ≤ most'
    → IsAt c place room most
    → IsAt c place room most'
IsAt-weaken c place room most most' h at = record {
  some_bit = at.some_bit;
  one_byte = at.one_byte;
  byte_word = at.byte_word;
  here = at.here;
  room_left = at.room_left;
  bounded = omega (arith, at.bounded);
}

Asked-done :
    (depth : ℕ) (c : Cursor) (val n : ℕ) (w : BitWriter) (place room most most' : ℕ)
    (pre mid post : List ℕ)
    → n ≡ 0
    → most ≤ most'
    → Asked c n w place room most pre mid post
    → Writes (write_cursor depth c val n w) w (place + n) (room - n) most' pre (to_bits n val) post
Asked-done depth c val n w place room most most' pre mid post done h a =
    Writes-same (write_cursor depth c val n w) w place (place + n) room (room - n) most' pre
      (to_bits n val) post (omega arith) (omega arith)
      (Writes-nothing depth c val n w place room most' pre mid post done
        (IsAt-weaken c place room most most' h a.at) a.valid a.middle a.content)

-- One round and the rounds that follow.
Asked-round :
    (n s val : ℕ) (w w' : BitWriter) (result rest : Result (Cursor × BitWriter))
    (place room most : ℕ) (pre mid post : List ℕ)
    → Replaced w w' pre (to_bits (min n s) val) (drop (min n s) mid ++ post)
    → result ≡ rest
    → Writes rest w'
        (place + min n s + (n - s))
        (room - min n s - (n - s))
        most
        (pre ++ to_bits (min n s) val)
        (to_bits (n - s) (val / 2 ^ s))
        post
    → Writes result w (place + n) (room - n) most pre (to_bits n val) post
Asked-round n s val w w' result rest place room most pre mid post r e more =
    Writes-then s n val w w' result rest (place + n) (room - n) most pre
      (drop (min n s) mid ++ post) post r e
      (Writes-same rest w' (place + min n s + (n - s)) (place + n) (room - min n s - (n - s))
        (room - n) most (pre ++ to_bits (min n s) val) (to_bits (n - s) (val / 2 ^ s)) post
        (omega arith) (omega arith) more)

pub rounds :
    (depth : ℕ) (c : Cursor) (val n : ℕ) (w : BitWriter) (place room most : ℕ)
    (pre mid post : List ℕ)
    → n ≤ depth
    → Asked c n w place room most pre mid post
    → Writes
        (write_cursor depth c val n w)
        w
        (place + n)
        (room - n)
        (most + 8)
        pre
        (to_bits n val)
        post
rounds zero c val n w place room most pre mid post h a =
    Asked-done zero c val n w place room most (most + 8) pre mid post (omega arith) (omega arith) a
rounds (suc depth) c val n w place room most pre mid post h a = elim (ℕ_discrete n 0) [
  | yes done ↦
      Asked-done (suc depth) c val n w place room most (most + 8) pre mid post done (omega arith) a
  | no more ↦ elim (ℕ_discrete c.bit 8) [
    | yes full ↦
        let byte = u64 (c.byte + 1) in
        let (inside, r) =
          round-Replaced byte 0 (min 8 n) 8 n val w pre mid post (omega arith) a.valid (omega arith)
            (omega arith) (omega (arith, a.at.here, a.front)) a.middle a.content in
        let w' : BitWriter = record w {
          buffer = modify_at byte (replace_bits 0 (min 8 n) val) w.buffer;
        } in
        let c' : Cursor = record {
          byte = byte;
          bit = min 8 n;
          size = u64 (c.size + (8 - min 8 n));
          wrote = true;
          total_bits = c.total_bits;
        } in
        let at =
          full-IsAt c n c.size place room most c.total_bits a.at full (omega arith) a.fits
            (omega (arith, inside, a.sized)) a.counted in
        let step =
          write_cursor-fresh depth c val n w (omega arith) (omega (arith, a.fits, a.at.room_left))
            a.word full inside in
        Asked-round n 8 val w w' (write_cursor (suc depth) c val n w)
          (write_cursor depth c' (val / 2 ^ 8) (n - 8) w') place room (most + 8) pre mid post r step
          (elim (dec_lt n 8) [
            | yes last ↦
                let (long, content) =
                  bits_left 8 n w w' pre mid (to_bits (min n 8) val) post a.middle r in
                let pre' = pre ++ to_bits (min n 8) val in
                let left = drop (min n 8) mid in
                let at' =
                  IsAt-weaken c' (place + min n 8) (room - min n 8) (most + (8 - min 8 n))
                    (most + 8) (omega arith) at in
                Writes-same (write_cursor depth c' (val / 2 ^ 8) (n - 8) w') w' (place + min n 8)
                  (place + min n 8 + (n - 8)) (room - min n 8) (room - min n 8 - (n - 8)) (most + 8)
                  pre' (to_bits (n - 8) (val / 2 ^ 8)) post (omega arith) (omega arith)
                  (Writes-nothing depth c' (val / 2 ^ 8) (n - 8) w' (place + min n 8)
                    (room - min n 8) (most + 8) pre' left post (omega arith) at' r.valid long
                    content)
            | no longer ↦
                let at' =
                  IsAt-weaken c' (place + min n 8) (room - min n 8) (most + (8 - min 8 n)) most
                    (omega arith) at in
                rounds depth c' (val / 2 ^ 8) (n - 8) w' (place + min n 8) (room - min n 8) most
                  (pre ++ to_bits (min n 8) val) (drop (min n 8) mid) post (omega arith)
                  (Asked-next c c' n 8 w w' place room most val pre mid post a r at')
          ])
    | no free ↦
        let s = 8 - c.bit in
        let k = min n s in
        let below : c.bit < 8 = omega (arith, a.at.one_byte, free) in
        let (inside, r) =
          round-Replaced c.byte c.bit k s n val w pre mid post refl a.valid (omega arith)
            (omega arith) (omega (arith, a.at.here, a.at.byte_word, a.front)) a.middle a.content in
        let w' : BitWriter = record w {
          buffer = modify_at c.byte (replace_bits c.bit k val) w.buffer;
        } in
        let c' : Cursor = record {
          byte = c.byte;
          bit = min 8 (c.bit + n);
          size = c.size - k;
          wrote = true;
          total_bits = c.total_bits;
        } in
        let left : n - k ≡ n - s = omega arith in
        let step =
          write_cursor-filled depth c val n w (omega arith) (omega (arith, a.fits, a.at.room_left))
            a.word below inside
          ∙ ap (λ (m : ℕ). write_cursor depth c' (val / 2 ^ s) m w') left in
        Asked-round n s val w w' (write_cursor (suc depth) c val n w)
          (write_cursor depth c' (val / 2 ^ s) (n - s) w') place room (most + 8) pre mid post r step
          (rounds depth c' (val / 2 ^ s) (n - s) w' (place + k) (room - k) most
            (pre ++ to_bits k val) (drop k mid) post (omega arith)
            (Asked-next c c' n s w w' place room most val pre mid post a r
              (free-IsAt c n place room most a.at below (omega arith) a.fits)))
  ]
]
