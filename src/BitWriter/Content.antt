-- ===== src/BitWriter/Content.antt =====
-- The bits that a writer holds, and what a well-formed writer is.
use storm_net.Prelude.{ℕ, ◌≤◌, ◌<◌, ◌≡◌, ◌≢◌, refl, ap, sym, ◌∙◌, List, [], ◌∷◌, ◌++◌, append_assoc}
use storm_net.Bits.{to_bits, IsBytes}
use storm_net.BitWriter.{BitWriter, push_back, modify_back}

-- The bits of a vector of bytes of whose last byte `bit` bits are in use.
abbrev pub vector_bits : List ℕ → ℕ → List ℕ
vector_bits [] bit = []
vector_bits (b ∷ []) bit = to_bits bit b
vector_bits (b ∷ c ∷ rest) bit = to_bits 8 b ++ vector_bits (c ∷ rest) bit

unfoldable pub bits_of : BitWriter → List ℕ
bits_of w = vector_bits w.buffer w.bit

-- Between one and eight bits of the last byte are used; a writer with no byte is about to start one.
pub record IsValid (w : BitWriter) : Type 0 where
  pub some_bit : 0 < w.bit
  pub one_byte : w.bit ≤ 8
  pub no_bytes : w.buffer ≡ [] → w.bit ≡ 8
  pub bytes : IsBytes w.buffer

-- A new byte starts after eight bits of the one before.
pub vector_bits-push_back :
    (buffer : List ℕ) (v bit : ℕ)
    → vector_bits (push_back buffer v) bit ≡ vector_bits buffer 8 ++ to_bits bit v
unfolding push_back
vector_bits-push_back [] v bit = refl
vector_bits-push_back (b ∷ []) v bit = refl
vector_bits-push_back (b ∷ c ∷ rest) v bit =
    rw (vector_bits-push_back (c ∷ rest) v bit) (sym (append_assoc (to_bits 8 b) _ (to_bits bit v)))

-- A change of the last byte that keeps its used bits and adds some.
pub vector_bits-modify_back :
    (f : ℕ → ℕ) (buffer added : List ℕ) (bit bit' : ℕ)
    → buffer ≢ []
    → ((b : ℕ) → to_bits bit' (f b) ≡ to_bits bit b ++ added)
    → vector_bits (modify_back f buffer) bit' ≡ vector_bits buffer bit ++ added
unfolding modify_back
vector_bits-modify_back f [] added bit bit' nonempty h = absurd (nonempty refl)
vector_bits-modify_back f (b ∷ []) added bit bit' nonempty h = h b
vector_bits-modify_back f (b ∷ c ∷ []) added bit bit' nonempty h =
    ap (λ (t : List ℕ). to_bits 8 b ++ t) (h c)
    ∙ sym (append_assoc (to_bits 8 b) (to_bits bit c) added)
vector_bits-modify_back f (b ∷ c ∷ d ∷ rest) added bit bit' nonempty h =
    ap (λ (t : List ℕ). to_bits 8 b ++ t)
      (vector_bits-modify_back f (c ∷ d ∷ rest) added bit bit' (λ e. cc) h)
    ∙ sym (append_assoc (to_bits 8 b) (vector_bits (c ∷ d ∷ rest) bit) added)

pub modify_back-nonempty : (f : ℕ → ℕ) (buffer : List ℕ) → modify_back f buffer ≡ [] → buffer ≡ []
unfolding modify_back
modify_back-nonempty f [] e = refl
modify_back-nonempty f (b ∷ []) e = cc
modify_back-nonempty f (b ∷ c ∷ rest) e = cc

pub push_back-nonempty : (buffer : List ℕ) (v : ℕ) → push_back buffer v ≢ []
unfolding push_back
push_back-nonempty [] v e = cc
push_back-nonempty (b ∷ rest) v e = cc

pub modify_back-IsBytes :
    (f : ℕ → ℕ) (buffer : List ℕ)
    → ((b : ℕ) → f b < 256)
    → IsBytes buffer
    → IsBytes (modify_back f buffer)
unfolding modify_back
modify_back-IsBytes f [] h bs = bs
modify_back-IsBytes f (b ∷ []) h bs = (h b, tt)
modify_back-IsBytes f (b ∷ c ∷ rest) h bs = (bs.0, modify_back-IsBytes f (c ∷ rest) h bs.1)

pub append-IsBytes : (xs ys : List ℕ) → IsBytes xs → IsBytes ys → IsBytes (xs ++ ys)
append-IsBytes [] ys p q = q
append-IsBytes (x ∷ xs) ys p q = (p.0, append-IsBytes xs ys p.1 q)
