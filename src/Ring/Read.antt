-- ===== src/Ring/Read.antt =====
-- What `read` does to a valid ring, on each of its branches.
use gateway_g_rpc.Prelude.{
  ℕ, zero, suc, ◌+◌, ◌-◌, ◌/◌, ◌%◌, ◌^◌, ◌≤◌, ◌<◌, ◌≡◌, ◌≢◌, refl, sym, ap, ap₂, ◌∙◌, inl, inr,
  List, [], ◌∷◌, ◌++◌, leb, Bool-cases, lt→ltb, le→ltb-false, length, get_or, take, drop, tabulate,
  arith, length-tabulate, tabulate_congr, tabulate-add, length-append, append-cancel_left,
  append_assoc,
}
use gateway_g_rpc.Shm.{ok, err, buffer_empty, invalid_state}
use gateway_g_rpc.Ring.{
  SharedMemoryRingBuffer, to_le_bytes, from_le_bytes, load_byte, copy_from, store_read_pos, splice,
  read_prefix, read_payload, read_frame, read, settle_read,
}
use gateway_g_rpc.Ring.Inv.{
  IsValid, wrap, used, window, contents, frame, rem_lem, add_usize_lem, sub_usize_lem, used-lt,
  length-contents,
}

-- The four bytes of a `u32` give it back.
pub from_le_bytes-to_le_bytes :
    (n : ℕ)
    → n < 2 ^ 32
    → from_le_bytes (n % 256) (n / 256 % 256) (n / 65536 % 256) (n / 16777216 % 256) ≡ n
from_le_bytes-to_le_bytes n h = omega arith

pub take-append_length : (xs ys : List ℕ) (n : ℕ) → length xs ≡ n → take n (xs ++ ys) ≡ xs
take-append_length [] ys zero h = refl
take-append_length [] ys (suc n) h = absurd (omega arith)
take-append_length (x ∷ xs) ys zero h = absurd (omega arith)
take-append_length (x ∷ xs) ys (suc n) h =
    ap (λ r. x ∷ r) (take-append_length xs ys n (omega arith))

drop-append_add : (xs ys : List ℕ) (n k : ℕ) → n ≡ length xs + k → drop n (xs ++ ys) ≡ drop k ys
drop-append_add [] ys n k h = ap (λ i. drop i ys) (omega arith)
drop-append_add (x ∷ xs) ys zero k h = absurd (omega arith)
drop-append_add (x ∷ xs) ys (suc n) k h = drop-append_add xs ys n k (omega arith)

drop-drop : (m n k : ℕ) (xs : List ℕ) → k ≡ n + m → drop m (drop n xs) ≡ drop k xs
drop-drop m zero k xs h = ap (λ i. drop i xs) (omega arith)
drop-drop zero (suc n) zero [] h = refl
drop-drop zero (suc n) (suc k) [] h = refl
drop-drop (suc m) (suc n) zero [] h = absurd (omega arith)
drop-drop (suc m) (suc n) (suc k) [] h = refl
drop-drop m (suc n) zero (x ∷ xs) h = absurd (omega arith)
drop-drop m (suc n) (suc k) (x ∷ xs) h = drop-drop m n k xs (omega arith)

-- Two copies, one behind the other, are one.
splice-splice :
    (buf front back : List ℕ) (n : ℕ)
    → length front ≡ n
    → splice (splice buf 0 front) n back ≡ splice buf 0 (front ++ back)
splice-splice buf front back n h =
    ap₂ (λ (a b : List ℕ). a ++ (back ++ b))
      (take-append_length front (drop (0 + length front) buf) n h)
      (drop-append_add front (drop (0 + length front) buf) (n + length back) (length back)
          (omega arith)
        ∙ drop-drop (length back) (0 + length front) (0 + length (front ++ back)) buf
            (omega (arith, length-append front back)))
    ∙ sym (append_assoc front back _)

copy_from_lem :
    (s : SharedMemoryRingBuffer) (p n : ℕ)
    → s.data_offset + p + n ≤ s.len
    → copy_from s p n ≡ ok (tabulate n (λ k. s.cells (p + k)))
unfolding copy_from
copy_from_lem s p n h = ground arith

load_byte_lem :
    (s : SharedMemoryRingBuffer) (p : ℕ)
    → s.data_offset + p < s.len
    → load_byte s p ≡ ok (s.cells p)
unfolding load_byte
load_byte_lem s p h = ground arith

read_payload_lem :
    (s : SharedMemoryRingBuffer) (cap start n : ℕ) (buf : List ℕ)
    → s.data_offset + cap ≡ s.len
    → cap ≤ 2 ^ 32
    → start < cap
    → n ≤ cap
    → read_payload s cap start n buf ≡ ok (splice buf 0 (window s.cells cap start n))
unfolding read_payload
read_payload_lem s cap start n buf hm hc hs hn = elim (Bool-cases (leb (start + n) cap)) [
  | inl fits ↦
      rw (add_usize_lem start n (omega arith), fits, copy_from_lem s start n (ground arith))
        (ap (λ w. ok (splice buf 0 w)) (tabulate_congr n _ _ (λ k p. ap s.cells (ground arith))))
  | inr over ↦
      rw
        (
          add_usize_lem start n (omega arith),
          over,
          sub_usize_lem cap start (omega arith) (omega arith),
          sub_usize_lem n (cap - start) (ground arith) (omega arith),
          copy_from_lem s start (cap - start) (omega arith),
          copy_from_lem s 0 (n - (cap - start)) (omega arith),
        )
        (ap ok (
          splice-splice buf _ _ (cap - start) (length-tabulate (cap - start) _)
          ∙ ap (splice buf 0) (sym (join (ground arith)))))
]
  where
    join :
        cap - start ≤ n
        → window s.cells cap start n
          ≡ tabulate (cap - start) (λ k. s.cells (start + k))
            ++ tabulate (n - (cap - start)) (λ k. s.cells (0 + k))
    join h =
        ap (λ c. tabulate c (λ k. s.cells (wrap cap (start + k)))) (split h)
        ∙ tabulate-add (cap - start) (n - (cap - start)) (λ k. s.cells (wrap cap (start + k)))
        ∙ ap₂ ◌++◌ (tabulate_congr (cap - start) _ _ (λ k p. ap s.cells (ground arith)))
            (tabulate_congr (n - (cap - start)) _ _ (λ k p. ap s.cells (ground arith)))
      where
        split : cap - start ≤ n → n ≡ (cap - start) + (n - (cap - start))
        split p = omega arith

module _ {s : SharedMemoryRingBuffer} (v : IsValid s) where
  open v use {nonempty, small, write_in, read_in, mapped}

  abbrev cap : ℕ
  cap = s.header.capacity

  abbrev r : ℕ
  r = s.header.read_pos

  -- The `k`-th byte from the read position on.
  abbrev byte : ℕ → ℕ
  byte k = s.cells (wrap cap (r + k))

  read_prefix_lem : 4 < cap → read_prefix s ≡ ok (from_le_bytes (byte 0) (byte 1) (byte 2) (byte 3))
  unfolding read_prefix
  read_prefix_lem h =
      rw
        (
          load_byte_lem s r (omega arith),
          add_usize_lem r 1 (omega arith),
          rem_lem (r + 1) cap nonempty (omega arith),
          load_byte_lem s (wrap cap (r + 1)) (ground arith),
          add_usize_lem r 2 (omega arith),
          rem_lem (r + 2) cap nonempty (omega arith),
          load_byte_lem s (wrap cap (r + 2)) (ground arith),
          add_usize_lem r 3 (omega arith),
          rem_lem (r + 3) cap nonempty (omega arith),
          load_byte_lem s (wrap cap (r + 3)) (ground arith),
        )
        (ap (λ (b : ℕ). ok (from_le_bytes b (byte 1) (byte 2) (byte 3)))
          (ap s.cells (ground arith)))

  pub read-empty : (buf : List ℕ) → used s.header ≡ 0 → read s buf ≡ (s, buf, err buffer_empty)
  unfolding read
  read-empty buf h = ground arith

  read-nonempty :
      (buf : List ℕ) → used s.header ≢ 0 → read s buf ≡ settle_read s buf (read_frame s buf)
  unfolding read
  read-nonempty buf h = ground arith

  module _ (m rest buf : List ℕ) (e : contents s ≡ frame m ++ rest) where
    abbrev n : ℕ
    n = length m

    total : used s.header ≡ 4 + (n + length rest)
    total = omega (arith, length-contents s, ap length e, length-append m rest)

    -- The three parts of what the ring holds.
    parts :
        (tabulate 4 byte ≡ to_le_bytes n)
        × (tabulate n (λ k. byte (4 + k)) ≡ m)
        × (tabulate (length rest) (λ k. byte (4 + (n + k))) ≡ rest)
    parts = (p.0, q.0, q.1)
      where
        whole :
            tabulate 4 byte
              ++ (tabulate n (λ k. byte (4 + k))
                  ++ tabulate (length rest) (λ k. byte (4 + (n + k))))
            ≡ to_le_bytes n ++ (m ++ rest)
        whole =
            ap (λ t. tabulate 4 byte ++ t) (sym (tabulate-add n (length rest) (λ k. byte (4 + k))))
            ∙ sym (tabulate-add 4 (n + length rest) byte)
            ∙ ap (λ c. tabulate c byte) (sym total)
            ∙ e

        p :
            (tabulate 4 byte ≡ to_le_bytes n)
            × (tabulate n (λ k. byte (4 + k)) ++ tabulate (length rest) (λ k. byte (4 + (n + k)))
                ≡ m ++ rest)
        p = append-cancel_left (tabulate 4 byte) (to_le_bytes n) refl whole

        q :
            (tabulate n (λ k. byte (4 + k)) ≡ m)
            × (tabulate (length rest) (λ k. byte (4 + (n + k))) ≡ rest)
        q = append-cancel_left (tabulate n (λ k. byte (4 + k))) m (length-tabulate n _) p.1

    prefix_is_length : read_prefix s ≡ ok n
    prefix_is_length = read_prefix_lem (omega (arith, total, used-lt v)) ∙ ap ok value
      where
        value : from_le_bytes (byte 0) (byte 1) (byte 2) (byte 3) ≡ n
        value =
            ap
              (λ (l : List ℕ).
                from_le_bytes (get_or l 0 0) (get_or l 1 0) (get_or l 2 0) (get_or l 3 0))
              parts.0
            ∙ from_le_bytes-to_le_bytes n (omega (arith, total, used-lt v))

    too_small : length buf < n → read_frame s buf ≡ err invalid_state
    unfolding read_frame
    too_small h = rw (prefix_is_length, lt→ltb (length buf) n h)

    -- A message that is longer than the caller's buffer stays where it is.
    pub read-too_small : length buf < n → read s buf ≡ (s, buf, err invalid_state)
    read-too_small h =
        read-nonempty buf (omega (arith, total)) ∙ ap (settle_read s buf) (too_small h)

    -- The buffer that a successful `read` leaves.
    abbrev pub after : SharedMemoryRingBuffer
    after = store_read_pos s (wrap cap (r + 4 + n))

    read_frame_lem : n ≤ length buf → read_frame s buf ≡ ok (after, splice buf 0 m, n)
    unfolding read_frame
    read_frame_lem h =
        rw
          (
            prefix_is_length,
            le→ltb-false (length buf) n h,
            add_usize_lem r 4 (omega arith),
            rem_lem (r + 4) cap nonempty (omega (arith, total, used-lt v)),
            read_payload_lem s cap (wrap cap (r + 4)) n buf mapped small
                (ground (arith, total, used-lt v)) (omega (arith, total, used-lt v)),
            add_usize_lem (r + 4) n (omega (arith, total, used-lt v)),
            rem_lem (r + 4 + n) cap nonempty (omega (arith, total, used-lt v)),
          )
          (ap (λ w. ok (after, splice buf 0 w, n)) payload)
      where
        payload : window s.cells cap (wrap cap (r + 4)) n ≡ m
        payload =
            tabulate_congr n _ _ (λ k p. ap s.cells (ground (arith, total, used-lt v))) ∙ parts.1

    pub read-ok : n ≤ length buf → read s buf ≡ (after, splice buf 0 m, ok n)
    read-ok h = read-nonempty buf (omega (arith, total)) ∙ ap (settle_read s buf) (read_frame_lem h)

    pub after-IsValid : IsValid after
    after-IsValid = ground (arith, total, used-lt v)

    used-after : used after.header ≡ length rest
    used-after = ground (arith, total, used-lt v)

    pub contents-after : contents after ≡ rest
    contents-after =
        ap (λ c. window s.cells cap (wrap cap (r + 4 + n)) c) used-after
        ∙ tabulate_congr (length rest) _ _ (λ k p. ap s.cells (ground (arith, total, used-lt v)))
        ∙ parts.2
