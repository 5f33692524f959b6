-- ===== src/Dms/Stores.antt =====
-- The page after the stores of dmsFile::insert (dms/dms.cpp).
use edbc.Base.{ℕ, ◌+◌, ◌^◌, ◌≤◌, ◌<◌, ◌≡◌, ◌∙◌, ◌⊎◌, length, arith}
use edbc.Base.Bytes.{Bytes, IsText}
use edbc.Base.Memory.{
  Memory, load32, store32, store_bytes, AgreeOn, store_bytes-outside, store_bytes-HoldsAt,
  store32-outside, load32-store32, load32-outside, load32_agree, HoldsAt-agree,
}
use edbc.Dms.Page.{slot_at, dms_pagesize}
use edbc.Dms.Layout.{RecordAt}

-- The page after the stores of insert, at a write position below the free offset.
module _ (m : Memory) (n pos need : ℕ) (bytes : Bytes) (slots free : ℕ) where
  abbrev pub recorded : Memory
  recorded =
      store_bytes (store32 (store32 (store32 m (slot_at n) pos) pos need) (pos + 4) 0) (pos + 8)
        bytes

  abbrev pub placed : Memory
  placed = store32 (store32 (store32 (store32 recorded 12 (n + 1)) 16 slots) 24 pos) 20 free

  pub placed-outside :
      (i : ℕ)
      → (i < 12) ⊎ (28 ≤ i)
      → (i < slot_at n) ⊎ (slot_at n + 4 ≤ i)
      → (i < pos) ⊎ (pos + 8 + length bytes ≤ i)
      → placed i ≡ m i
  placed-outside i a b c =
      store32-outside _ 20 free i (omega arith)
      ∙ store32-outside _ 24 pos i (omega arith)
      ∙ store32-outside _ 16 slots i (omega arith)
      ∙ store32-outside _ 12 (n + 1) i (omega arith)
      ∙ store_bytes-outside _ (pos + 8) bytes i (omega arith)
      ∙ store32-outside _ (pos + 4) 0 i (omega arith)
      ∙ store32-outside _ pos need i (omega arith)
      ∙ store32-outside m (slot_at n) pos i (omega arith)

  -- Past the header the stores of the header do not matter.
  pub placed-recorded : AgreeOn 28 (2 ^ 33) recorded placed
  placed-recorded i lo hi =
      store32-outside _ 20 free i (omega arith)
      ∙ store32-outside _ 24 pos i (omega arith)
      ∙ store32-outside _ 16 slots i (omega arith)
      ∙ store32-outside _ 12 (n + 1) i (omega arith)

  module _ (below : slot_at n + 4 ≤ pos) (inside : pos + 12 + length bytes ≤ dms_pagesize)
      (small : need < 2 ^ 32) where
    pub placed_header :
        n + 1 < 2 ^ 32
        → slots < 2 ^ 32
        → free < 2 ^ 32
        → (load32 placed 12 ≡ n + 1)
          × (load32 placed 16 ≡ slots)
          × (load32 placed 24 ≡ pos)
          × (load32 placed 20 ≡ free)
    placed_header p q r = (
      load32-outside _ 20 free 12 (omega arith)
          ∙ load32-outside _ 24 pos 12 (omega arith)
          ∙ load32-outside _ 16 slots 12 (omega arith)
          ∙ load32-store32 _ 12 (n + 1) p,
      load32-outside _ 20 free 16 (omega arith)
          ∙ load32-outside _ 24 pos 16 (omega arith)
          ∙ load32-store32 _ 16 slots q,
      load32-outside _ 20 free 24 (omega arith) ∙ load32-store32 _ 24 pos (omega arith),
      load32-store32 _ 20 free r,
    )

    pub bytes-outside :
        (k : Memory) (a : ℕ)
        → a + 4 ≤ pos + 8
        → load32 (store_bytes k (pos + 8) bytes) a ≡ load32 k a
    bytes-outside k a h =
        load32_agree k _ a (λ i lo hi. store_bytes-outside k (pos + 8) bytes i (omega arith))

    pub placed_slot : load32 placed (slot_at n) ≡ pos
    placed_slot =
        load32_agree recorded placed (slot_at n)
          (λ i lo hi. placed-recorded i (omega arith) (omega arith))
        ∙ bytes-outside _ (slot_at n) (omega arith)
        ∙ load32-outside _ (pos + 4) 0 (slot_at n) (omega arith)
        ∙ load32-outside _ pos need (slot_at n) (omega arith)
        ∙ load32-store32 m (slot_at n) pos (omega arith)

    pub placed_record :
        need ≡ length bytes + 12
        → IsText bytes
        → m (pos + 8 + length bytes) ≡ 0
        → RecordAt placed pos bytes
    placed_record e t z = record {
      size =
          load32_agree recorded placed pos
            (λ i lo hi. placed-recorded i (omega arith) (omega arith))
          ∙ bytes-outside _ pos (omega arith)
          ∙ load32-outside _ (pos + 4) 0 pos (omega arith)
          ∙ load32-store32 _ pos need small
          ∙ e;
      flag =
          load32_agree recorded placed (pos + 4)
            (λ i lo hi. placed-recorded i (omega arith) (omega arith))
          ∙ bytes-outside _ (pos + 4) (omega arith)
          ∙ load32-store32 _ (pos + 4) 0 (omega arith);
      text = t;
      body =
          HoldsAt-agree recorded placed (pos + 8) bytes
            (λ i lo hi. placed-recorded i (omega arith) (omega arith))
            (store_bytes-HoldsAt _ (pos + 8) bytes);
      stop = placed-outside _ (omega arith) (omega arith) (omega arith) ∙ z;
    }
