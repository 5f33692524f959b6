-- ===== src/Dms/Rearrange.antt =====
-- What reArrangeSpace (dms/dms.cpp) does to a page with slots.
use edbc.Base.{ℕ, suc, ◌≡◌, Option, ◌∷◌, length, arith, lt→ltb}
use edbc.Base.Outcome.{fault}
use edbc.Base.Bytes.{Bytes}
use edbc.Base.Memory.{Memory, load32}
use edbc.Dms.Page.{rearrange_loop, re_arrange_space, move_record}
use edbc.Dms.Layout.{Slots}
use edbc.Dms.Models.{Models}

-- The eye catcher is read as the offset of the first record.
eye_word : (m : Memory) (cs : Slots) → Models m cs → load32 m 0 ≡ 1212629328
unfolding load32
eye_word m cs h = rw (h.eye.0, h.eye.1.0, h.eye.1.1.0, h.eye.1.1.1.0)

-- On a page that models one slot or more, reArrangeSpace is undefined: the first slot that it
-- reads is the eye catcher, and the record that it takes it for lies outside the page.
pub re_arrange_space-fault :
    (fuel : ℕ) (m : Memory) (c : Option Bytes) (cs : Slots)
    → Models m (c ∷ cs)
    → re_arrange_space (suc fuel) m ≡ fault
unfolding re_arrange_space rearrange_loop move_record
re_arrange_space-fault fuel m c cs h =
    rw (h.slots, eye_word m (c ∷ cs) h, lt→ltb 0 (suc (length cs)) (omega arith))
