-- ===== src/Crc32/Codeword.antt =====
-- src/crc32.c: which sections the check accepts, and the damage that it always sees.
use demuxfs.Prelude.{
  ℕ, zero, suc, ◌≡◌, refl, sym, ◌∙◌, bit_xor, ◌↔◌, List, [], ◌∷◌, ◌++◌, arith, true, All, ==_iff,
}
use demuxfs.Prelude.Bits.{bit_xor_assoc, bit_xor_self, bit_xor-lt, eq_of_xor_zero, zero-bit_xor}
use demuxfs.Byteops.{IsByte, convert_to_32}
use demuxfs.Byteops.Laws.{convert_to_32_lem}
use demuxfs.Crc32.{Crc32, divide_bit, divide_bits, crc32_check, initial_remainder}
use demuxfs.Crc32.Serial.{IsWord}
use demuxfs.Crc32.Table.{IsValid, crc, crc32_check-crc}
use demuxfs.Crc32.Feed.{
  divide_bits-injective, feed, feed-append, feed-IsWord, feed-injective, word, feed_four,
}

start-IsWord : (msg : List ℕ) → IsWord (feed initial_remainder msg)
start-IsWord msg = feed-IsWord msg initial_remainder (omega arith)

crc-feed : (msg : List ℕ) → crc msg ≡ feed initial_remainder msg
unfolding crc feed
crc-feed msg = refl

word-injective :
    (a b c d a' b' c' d' : ℕ)
    → All IsByte (a ∷ b ∷ c ∷ d ∷ a' ∷ b' ∷ c' ∷ d' ∷ [])
    → word a b c d ≡ word a' b' c' d'
    → (a ≡ a') × (b ≡ b') × (c ≡ c') × (d ≡ d')
word-injective a b c d a' b' c' d' h e = omega arith

All-append : (xs ys : List ℕ) → All IsByte xs → All IsByte ys → All IsByte (xs ++ ys)
All-append [] ys hx hy = hy
All-append (x ∷ xs) ys (hx, hxs) hy = (hx, All-append xs ys hxs hy)

divide_bits-zero : (n : ℕ) → divide_bits n 0 ≡ 0
unfolding divide_bits divide_bit
divide_bits-zero zero = refl
divide_bits-zero (suc n) = divide_bits-zero n

-- The register is 0 after four bytes exactly when they spell its value.
feed-eq_zero :
    (r a b c d : ℕ)
    → IsWord r
    → All IsByte (a ∷ b ∷ c ∷ d ∷ [])
    → (feed r (a ∷ b ∷ c ∷ d ∷ []) ≡ 0) ↔ (r ≡ word a b c d)
feed-eq_zero r a b c d hr (ha, (hb, (hc, (hd, u)))) =
    let e = feed_four r a b c d hr ha hb hc hd in
    let w = word a b c d in
    let hw : IsWord w = omega arith in
    (
      (λ z. eq_of_xor_zero r w (
          divide_bits-injective 32 (bit_xor r w) 0 (bit_xor-lt 32 r w hr hw) (omega arith)
            (cc (divide_bits-zero 32)))),
      λ same. cc (bit_xor_self w, divide_bits-zero 32),
    )

-- From a valid state the check accepts a message of bytes that ends in four more bytes exactly when
-- those four, joined by CONVERT_TO_32, are the bit-serial CRC of the message before them.
pub crc32_check-trailer :
    (msg : List ℕ) (a b c d : ℕ) (s : Crc32)
    → IsValid s
    → All IsByte msg
    → All IsByte (a ∷ b ∷ c ∷ d ∷ [])
    → ((crc32_check (msg ++ (a ∷ b ∷ c ∷ d ∷ [])) s).0 ≡ true) ↔ (convert_to_32 a b c d ≡ crc msg)
crc32_check-trailer msg a b c d s v hm ht =
    let tail = a ∷ b ∷ c ∷ d ∷ [] in
    let ok = (crc32_check-crc (msg ++ tail) s v (All-append msg tail hm ht)).0 in
    let r = feed initial_remainder msg in
    let whole : crc (msg ++ tail) ≡ feed r tail =
      crc-feed (msg ++ tail) ∙ feed-append msg tail initial_remainder in
    let zero_iff = feed-eq_zero r a b c d (start-IsWord msg) ht in
    let join = convert_to_32_lem a b c d ht.0 ht.1.0 ht.1.1.0 ht.1.1.1.0 in
    (
      (λ t.
          join
          ∙ sym (zero_iff.0 (sym whole ∙ (==_iff (crc (msg ++ tail)) 0).0 (sym ok ∙ t)))
          ∙ sym (crc-feed msg)),
      λ e.
          ok
          ∙ (==_iff (crc (msg ++ tail)) 0).1
              (whole ∙ zero_iff.1 (sym (crc-feed msg) ∙ sym e ∙ join)),
    )

accepted_register :
    (buf : List ℕ) (s : Crc32)
    → IsValid s
    → All IsByte buf
    → (crc32_check buf s).0 ≡ true
    → feed initial_remainder buf ≡ 0
accepted_register buf s v hb t =
    sym (crc-feed buf) ∙ (==_iff (crc buf) 0).0 (sym (crc32_check-crc buf s v hb).0 ∙ t)

-- The register in front of what follows an accepted window is determined by what follows.
window_register :
    (front window back : List ℕ) (s : Crc32)
    → IsValid s
    → All IsByte front
    → All IsByte window
    → All IsByte back
    → (crc32_check (front ++ (window ++ back)) s).0 ≡ true
    → feed (feed (feed initial_remainder front) window) back ≡ 0
window_register front window back s v hf hw hb t =
    sym (
      feed-append front (window ++ back) initial_remainder
      ∙ feed-append window back (feed initial_remainder front))
    ∙ accepted_register (front ++ (window ++ back)) s v
        (All-append front (window ++ back) hf (All-append window back hw hb)) t

-- Two sections of bytes that both pass the check, and agree before and behind a window of four
-- bytes, agree in the window too: damage within four bytes in a row never goes unseen.
pub crc32_check-burst :
    (front back : List ℕ) (a b c d a' b' c' d' : ℕ) (s : Crc32)
    → IsValid s
    → All IsByte front
    → All IsByte back
    → All IsByte (a ∷ b ∷ c ∷ d ∷ a' ∷ b' ∷ c' ∷ d' ∷ [])
    → (crc32_check (front ++ ((a ∷ b ∷ c ∷ d ∷ []) ++ back)) s).0 ≡ true
    → (crc32_check (front ++ ((a' ∷ b' ∷ c' ∷ d' ∷ []) ++ back)) s).0 ≡ true
    → (a ≡ a') × (b ≡ b') × (c ≡ c') × (d ≡ d')
crc32_check-burst front back a b c d a' b' c' d' s v hf hb h p q =
    let x = a ∷ b ∷ c ∷ d ∷ [] in
    let y = a' ∷ b' ∷ c' ∷ d' ∷ [] in
    let hx : All IsByte x = (h.0, (h.1.0, (h.1.1.0, (h.1.1.1.0, tt)))) in
    let hy : All IsByte y = h.1.1.1.1 in
    let r = feed initial_remainder front in
    let hr = start-IsWord front in
    let same : feed r x ≡ feed r y =
      feed-injective back (feed r x) (feed r y) (feed-IsWord x r hr) (feed-IsWord y r hr) hb (
        window_register front x back s v hf hx hb p
        ∙ sym (window_register front y back s v hf hy hb q)) in
    let w = word a b c d in
    let w' = word a' b' c' d' in
    let hw : IsWord w = omega arith in
    let hw' : IsWord w' = omega arith in
    let words : bit_xor r w ≡ bit_xor r w' =
      divide_bits-injective 32 (bit_xor r w) (bit_xor r w') (bit_xor-lt 32 r w hr hw)
        (bit_xor-lt 32 r w' hr hw')
        (sym (feed_four r a b c d hr hx.0 hx.1.0 hx.1.1.0 hx.1.1.1.0)
          ∙ same
          ∙ feed_four r a' b' c' d' hr hy.0 hy.1.0 hy.1.1.0 hy.1.1.1.0) in
    word-injective a b c d a' b' c' d' h (
      cc (
        words,
        bit_xor_assoc r r w,
        bit_xor_assoc r r w',
        bit_xor_self r,
        zero-bit_xor w,
        zero-bit_xor w',
      ))
