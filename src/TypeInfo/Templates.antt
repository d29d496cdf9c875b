-- ===== src/TypeInfo/Templates.antt =====
-- TypeInfo_GetNullableTemplate: where the template of a null value goes.
use barrel_test.Base.{ltb, ==_false, ℕ, ◌+◌, ◌*◌, ◌≤◌, ◌<◌, ◌≡◌, refl, ◌≢◌, ◌⊎◌, false, arith}
use barrel_test.Enums.{sizeof_page}
use barrel_test.Memory.Copy.{blit, Movable, raw_transcribe-blit}
use barrel_test.TypeInfo.{Bins, Layout, end_of_page, get_nullable_template}

module _ (layout : Layout) (bins : Bins) (size null_loc : ℕ) where
  -- A NULL template and one that passes the end are refused, and nothing changes.
  pub get_nullable_template_refused :
      (null_loc ≡ 0) ⊎ (end_of_page layout < bins.null_head + size)
      → get_nullable_template layout bins size null_loc ≡ (0, bins)
  unfolding get_nullable_template
  get_nullable_template_refused h = ground arith

  -- Any other template that its copy does not overtake is moved to the head of the page, which
  -- moves on by its size.
  pub get_nullable_template_lem :
      null_loc ≢ 0
      → bins.null_head + size ≤ end_of_page layout
      → Movable bins.null_head null_loc size
      → let (r, b) = get_nullable_template layout bins size null_loc in
        (r ≡ bins.null_head)
        × (b.null_head ≡ bins.null_head + size)
        × (b.mem ≡ blit bins.mem bins.null_head null_loc size)
  unfolding get_nullable_template
  get_nullable_template_lem ne fits ok =
      rw (==_false null_loc 0 ne, room)
        (refl, refl, raw_transcribe-blit bins.mem bins.null_head null_loc size ne ok)
    where
      room : ltb (end_of_page layout) (bins.null_head + size) ≡ false
      room = ground arith

  -- A template that is not NULL and does not overlap its place is taken although the page is full,
  -- up to 4096 pages behind its start: it is written behind the page, byte by byte.
  pub get_nullable_template_overrun :
      null_loc ≢ 0
      → layout.null_bin + sizeof_page ≤ bins.null_head
      → bins.null_head + size ≤ layout.null_bin + sizeof_page * sizeof_page
      → Movable bins.null_head null_loc size
      → let (r, b) = get_nullable_template layout bins size null_loc in
        (r ≡ bins.null_head)
        × ((k : ℕ) → k < size → b.mem (bins.null_head + k) ≡ bins.mem (null_loc + k))
  unfolding end_of_page blit
  get_nullable_template_overrun ne past fits ok =
      let (r, h, m) = get_nullable_template_lem ne fits ok in (r, λ k lt. rw m (ground arith))
