-- ===== src/Monitor/Selection.antt =====
-- The selected record of a window: `decrementSelectedRecord`, `incrementSelectedRecord` and
-- `updateRecordCount` of Tools/Applications/SystemMonitor/src/BaseWindow.cpp.
use robot_framework_ros.Prelude.{
  ltb, if◌then◌else◌, ℕ, zero, suc, ◌+◌, ◌-◌, ◌%◌, ◌^◌, ◌<◌, ◌≡◌, arith,
}
use robot_framework_ros.Monitor.Integers.{ℤ, pos, negsuc, sucℤ, predℤ, lebℤ, narrow16}

unfoldable pub decrement_selected_record : ℤ → ℤ
decrement_selected_record selected =
    let current = narrow16 (predℤ selected) in if lebℤ (pos 0) current then current else pos 0

-- The first argument is `m_recordCount`.
unfoldable pub increment_selected_record : ℕ → ℤ → ℤ
increment_selected_record count selected =
    let current = narrow16 (sucℤ selected) in
    let last = predℤ (pos count) in if lebℤ last current then narrow16 last else current

-- `updateRecordCount((uint16_t) n)`.
unfoldable pub update_record_count : ℕ → ℕ
update_record_count n = n % 2 ^ 16

-- With between 1 and 32767 records and one of them selected, up selects the one before and down the
-- one after, and both stop at the ends.
pub selection_moves :
    (count k : ℕ)
    → k < count
    → count < 2 ^ 15
    → (decrement_selected_record (pos k) ≡ pos (k - 1))
      × (increment_selected_record count (pos k) ≡ pos (if ltb (k + 1) count then k + 1 else k))
unfolding decrement_selected_record increment_selected_record narrow16
selection_moves count zero h b = ground arith
selection_moves count (suc k) h b = ground arith

-- While there are no records, down selects record -1 from any record but the last that an `int16_t`
-- can name.
pub selection_without_records :
    (k : ℕ) → k + 1 < 2 ^ 15 → increment_selected_record 0 (pos k) ≡ negsuc 0
unfolding increment_selected_record narrow16
selection_without_records k h = ground arith
