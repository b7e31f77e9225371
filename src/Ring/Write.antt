-- ===== src/Ring/Write.antt =====
-- What `write` does to a valid ring, on each of its branches.
use gateway_g_rpc.Prelude.{
  ℕ, zero, suc, ◌+◌, ◌-◌, ◌%◌, ◌^◌, ◌≤◌, ◌<◌, ◌≡◌, ◌≢◌, refl, ap, ap₂, ◌∙◌, inl, inr, List, [], ◌∷◌,
  ◌++◌, leb, if◌then◌else◌, Bool-cases, lt→ltb, le→ltb-false, length, get_or, take, drop, tabulate,
  arith, u32_mod, tabulate_congr, tabulate-add, tabulate-get_or,
}
use gateway_g_rpc.Shm.{ok, err, fault, buffer_full, out_of_bounds}
use gateway_g_rpc.Ring.{
  SharedMemoryRingBuffer, available, to_le_bytes, overwrite, copy_to, store_write_pos,
  write_payload, write_frame, write, settle_write,
}
use gateway_g_rpc.Ring.Inv.{
  IsValid, IsSlice, wrap, used, contents, frame, rem_lem, add_usize_lem, sub_usize_lem,
  available_lem,
}

pub get_or-take : (n : ℕ) (bs : List ℕ) (k : ℕ) → k < n → get_or (take n bs) k 0 ≡ get_or bs k 0
get_or-take zero bs k h = absurd (omega arith)
get_or-take (suc n) [] k h = refl
get_or-take (suc n) (b ∷ bs) zero h = refl
get_or-take (suc n) (b ∷ bs) (suc k) h = get_or-take n bs k (omega arith)

pub get_or-drop : (n : ℕ) (bs : List ℕ) (k : ℕ) → get_or (drop n bs) k 0 ≡ get_or bs (n + k) 0
get_or-drop zero bs k = ap (λ i. get_or bs i 0) (omega arith)
get_or-drop (suc n) [] k = refl
get_or-drop (suc n) (b ∷ bs) k = get_or-drop n bs k ∙ ap (λ i. get_or (b ∷ bs) i 0) (shift n k)
  where
    shift : (n k : ℕ) → suc (n + k) ≡ suc n + k
    shift n k = omega arith

pub length-take_of_le : (n : ℕ) (bs : List ℕ) → n ≤ length bs → length (take n bs) ≡ n
length-take_of_le zero bs h = refl
length-take_of_le (suc n) [] h = absurd (omega arith)
length-take_of_le (suc n) (b ∷ bs) h = ap suc (length-take_of_le n bs (omega arith))

pub length-drop : (n : ℕ) (bs : List ℕ) → length (drop n bs) ≡ length bs - n
length-drop zero bs = omega arith
length-drop (suc n) [] = omega arith
length-drop (suc n) (b ∷ bs) = omega (arith, length-drop n bs)

-- The payload at `start`, going round at `cap`.
unfoldable pub payload_at : (ℕ → ℕ) → ℕ → ℕ → List ℕ → ℕ → ℕ
payload_at c cap start bs =
    if leb (start + length bs) cap
    then overwrite c start bs
    else overwrite (overwrite c start (take (cap - start) bs)) 0 (drop (cap - start) bs)

-- The payload's `k`-th byte stands `k` places behind its start, round the end.
payload_at_inside :
    (c : ℕ → ℕ) (cap start : ℕ) (bs : List ℕ) (k : ℕ)
    → start < cap
    → length bs ≤ cap
    → k < length bs
    → payload_at c cap start bs (wrap cap (start + k)) ≡ get_or bs k 0
unfolding payload_at
payload_at_inside c cap start bs k hs hl hk = elim (Bool-cases (leb (start + length bs) cap)) [
  | inl fits ↦ ground arith
  | inr over ↦ ground (
    arith,
    length-take_of_le (cap - start) bs,
    length-drop (cap - start) bs,
    get_or-take (cap - start) bs k,
    get_or-drop (cap - start) bs (k - (cap - start)),
  )
]

-- Every other place stays as it was.
payload_at_outside :
    (c : ℕ → ℕ) (cap start : ℕ) (bs : List ℕ) (a : ℕ)
    → start < cap
    → length bs ≤ cap
    → ((k : ℕ) → k < length bs → wrap cap (start + k) ≢ a)
    → a < cap
    → payload_at c cap start bs a ≡ c a
unfolding payload_at
payload_at_outside c cap start bs a hs hl free ha =
    elim (Bool-cases (leb (start + length bs) cap)) [
      | inl fits ↦ ground (arith, free (a - start))
      | inr over ↦ ground (
        arith,
        length-take_of_le (cap - start) bs,
        length-drop (cap - start) bs,
        free (a - start),
        free (a + cap - start),
      )
    ]

-- The buffer with other bytes behind its header.
abbrev pub with_cells : SharedMemoryRingBuffer → (ℕ → ℕ) → SharedMemoryRingBuffer
with_cells s c = record s { mmap = record s.mmap { cells = c } }

copy_to_lem :
    (s : SharedMemoryRingBuffer) (p : ℕ) (bs : List ℕ)
    → s.data_offset + p + length bs ≤ s.len
    → copy_to s p bs ≡ ok (with_cells s (overwrite s.cells p bs))
unfolding copy_to
copy_to_lem s p bs h = ground arith

copy_to-out_of_bounds :
    (s : SharedMemoryRingBuffer) (p : ℕ) (bs : List ℕ)
    → s.len < s.data_offset + p + length bs
    → copy_to s p bs ≡ fault out_of_bounds
unfolding copy_to
copy_to-out_of_bounds s p bs h = ground arith

write_payload_lem :
    (s : SharedMemoryRingBuffer) (cap start : ℕ) (bs : List ℕ)
    → s.data_offset + cap ≡ s.len
    → cap ≤ 2 ^ 32
    → start < cap
    → length bs ≤ cap
    → write_payload s cap start bs ≡ ok (with_cells s (payload_at s.cells cap start bs))
unfolding payload_at write_payload
write_payload_lem s cap start bs hm hc hs hl = elim (Bool-cases (leb (start + length bs) cap)) [
  | inl fits ↦
      rw (add_usize_lem start (length bs) (omega arith), fits)
        (copy_to_lem s start bs (ground arith))
  | inr over ↦ rw (
    add_usize_lem start (length bs) (omega arith),
    over,
    sub_usize_lem cap start (omega arith) (omega arith),
    copy_to_lem s start (take (cap - start) bs)
        (omega (arith, length-take_of_le (cap - start) bs (ground arith))),
    copy_to_lem (with_cells s (overwrite s.cells start (take (cap - start) bs))) 0
        (drop (cap - start) bs) (omega (arith, length-drop (cap - start) bs)),
  )
]

-- What `write` leaves behind when it succeeds.
abbrev pub written : SharedMemoryRingBuffer → List ℕ → SharedMemoryRingBuffer
written s bs =
    store_write_pos
      (with_cells s
        (payload_at (overwrite s.cells w (to_le_bytes (length bs))) cap (wrap cap (w + 4)) bs))
      (wrap cap (w + (4 + length bs)))
  where
    cap : ℕ
    cap = s.header.capacity

    w : ℕ
    w = s.header.write_pos

module _ {s : SharedMemoryRingBuffer} (v : IsValid s) (bs : List ℕ) where
  open v use {nonempty, small, write_in, read_in, mapped}

  abbrev cap : ℕ
  cap = s.header.capacity

  abbrev w : ℕ
  w = s.header.write_pos

  pub write_frame_lem : 4 + length bs < cap → w + 4 ≤ cap → write_frame s bs ≡ ok (written s bs)
  unfolding write_frame
  write_frame_lem hl hp = rw (
    short,
    copy_to_lem s w (to_le_bytes (length bs)) (omega arith),
    add_usize_lem w 4 (omega arith),
    rem_lem (w + 4) cap nonempty (omega arith),
    write_payload_lem (with_cells s (overwrite s.cells w (to_le_bytes (length bs)))) cap
        (wrap cap (w + 4)) bs mapped small (ground arith) (omega arith),
    add_usize_lem 4 (length bs) (omega arith),
    add_usize_lem w (4 + length bs) (omega arith),
    rem_lem (w + (4 + length bs)) cap nonempty (omega arith),
  )
    where
      short : length bs % u32_mod ≡ length bs
      short = omega arith

  -- The prefix is copied in one piece, so close to the end it does not fit.
  pub write_frame-out_of_bounds : cap < w + 4 → write_frame s bs ≡ fault out_of_bounds
  unfolding write_frame
  write_frame-out_of_bounds hp =
      rw (copy_to-out_of_bounds s w (to_le_bytes (length bs % u32_mod)) (omega arith))

  -- The space check, in terms of the bytes that the ring holds.
  pub write-full :
      IsSlice bs → cap ≤ used s.header + (4 + length bs) → write s bs ≡ (s, err buffer_full)
  unfolding write
  write-full hs h = rw (
    add_usize_lem 4 (length bs) (omega arith),
    lt→ltb (available s.header) (4 + length bs) (omega (arith, available_lem v)),
  )

  pub write-room :
      used s.header + (4 + length bs) < cap
      → write s bs ≡ settle_write s (length bs) (write_frame s bs)
  unfolding write
  write-room h = rw (
    add_usize_lem 4 (length bs) (omega arith),
    le→ltb-false (available s.header) (4 + length bs) (omega (arith, available_lem v)),
  )

  -- Where a byte of the ring lies, before and after.
  read_to_write : wrap cap (s.header.read_pos + used s.header) ≡ w
  read_to_write = ground arith

  used-written :
      used s.header + (4 + length bs) < cap
      → used (written s bs).header ≡ used s.header + (4 + length bs)
  used-written h = ground arith

  pub written-IsValid : used s.header + (4 + length bs) < cap → IsValid (written s bs)
  written-IsValid h = ground arith

  abbrev cells' : ℕ → ℕ
  cells' = (written s bs).cells

  abbrev w4 : ℕ
  w4 = wrap cap (w + 4)

  abbrev prefix : List ℕ
  prefix = to_le_bytes (length bs)

  module _ (room : used s.header + (4 + length bs) < cap) (whole : w + 4 ≤ cap) where
    old_byte :
        (k : ℕ)
        → k < used s.header
        → cells' (wrap cap (s.header.read_pos + k)) ≡ s.cells (wrap cap (s.header.read_pos + k))
    old_byte k h =
        payload_at_outside (overwrite s.cells w prefix) cap w4 bs (wrap cap (s.header.read_pos + k))
          (ground arith) (omega arith) (λ j p e. ground arith) (ground arith)
        ∙ outside
      where
        outside :
            overwrite s.cells w prefix (wrap cap (s.header.read_pos + k))
            ≡ s.cells (wrap cap (s.header.read_pos + k))
        outside = ground arith

    prefix_byte :
        (k : ℕ)
        → k < 4
        → cells' (wrap cap (s.header.read_pos + (used s.header + k))) ≡ get_or prefix k 0
    prefix_byte k h = rw place (
        payload_at_outside (overwrite s.cells w prefix) cap w4 bs (w + k) (ground arith)
          (omega arith) (λ j p e. ground arith) (omega arith)
        ∙ inside)
      where
        place : wrap cap (s.header.read_pos + (used s.header + k)) ≡ w + k
        place = ground arith

        inside : overwrite s.cells w prefix (w + k) ≡ get_or prefix k 0
        inside = ground arith

    payload_byte :
        (k : ℕ)
        → k < length bs
        → cells' (wrap cap (s.header.read_pos + (used s.header + (4 + k)))) ≡ get_or bs k 0
    payload_byte k h =
        rw place (
          payload_at_inside (overwrite s.cells w prefix) cap w4 bs k (ground arith) (omega arith) h)
      where
        place : wrap cap (s.header.read_pos + (used s.header + (4 + k))) ≡ wrap cap (w4 + k)
        place = ground arith

    -- The frame stands behind what the ring held.
    pub contents-written : contents (written s bs) ≡ contents s ++ frame bs
    contents-written =
        ap (λ n. tabulate n f') (used-written room)
        ∙ tabulate-add (used s.header) (4 + length bs) f'
        ∙ ap₂ ◌++◌ (tabulate_congr (used s.header) _ _ old_byte) (
            tabulate-add 4 (length bs) (λ k. f' (used s.header + k))
            ∙ ap₂ ◌++◌ (tabulate_congr 4 _ _ prefix_byte ∙ tabulate-get_or prefix 0)
                (tabulate_congr (length bs) _ _ payload_byte ∙ tabulate-get_or bs 0))
      where
        f' : ℕ → ℕ
        f' k = cells' (wrap cap (s.header.read_pos + k))
