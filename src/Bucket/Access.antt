-- ===== src/Bucket/Access.antt =====
-- Where the units of a bucket lie, and what its methods answer.
use native.Mathlib.Nat.{le-div_iff_mul-le, div-mul-le_self}
use barrel_test.Base.{
  leb, ==_false, length, get_or, set, length-set, get_or-set_self, get_or-set_ne, ℕ, ◌+◌, ◌*◌, ◌/◌,
  ◌%◌, ◌≤◌, ◌<◌, ◌≡◌, refl, ap, ◌∙◌, ◌≢◌, true, false, arith,
}
use barrel_test.Base.Int.{u32_mod, u64_mod, add64}
use barrel_test.Base.Run.{done}
use barrel_test.Enums.{param_option_code, t_chunk, t_variant, t_src, ix_trg, t_size}
use barrel_test.Helpers.{Word, Request, slot, slot_code}
use barrel_test.Memory.Words.{load64, store64, load32}
use barrel_test.Collection.{World, unit_size, count_of, set_mem, lock_of}
use barrel_test.Bucket.{
  chunk_head, chunk_size, get_ptr, capacity, Reply, reply, iterate_bucket, manage_bucket,
  info_bucket,
}

-- A bucket whose used units lie in its chunk, which lies in memory.
pub record IsBucket (w : World) (p : Word) (unit : ℕ) : Type 0 where
  pub size : unit_size w p ≡ done unit
  pub positive : 0 < unit
  pub fits : count_of w.bins.mem p * unit ≤ chunk_size w.bins.mem p
  pub room : chunk_head w.bins.mem p + chunk_size w.bins.mem p < u64_mod

unit_fits : (n i u c : ℕ) → i < n → n * u ≤ c → i * u + u ≤ c
unit_fits n i u c lt le = grind arith

module _ {w : World} {p : Word} {unit : ℕ} (b : IsBucket w p unit) where
  -- For an index below the count, Bucket_GetPtr answers the place of the unit, which lies whole in
  -- the chunk, on a bucket whose used units lie in its chunk, which lies in memory.
  pub get_ptr_lem :
      (index : ℕ)
      → index < count_of w.bins.mem p
      → (get_ptr w p index ≡ done (chunk_head w.bins.mem p + index * unit))
        × (index * unit + unit ≤ chunk_size w.bins.mem p)
  unfolding get_ptr
  get_ptr_lem index lt =
      let fit = unit_fits (count_of w.bins.mem p) index unit (chunk_size w.bins.mem p) lt b.fits in
      let below : leb (count_of w.bins.mem p) index ≡ false = ground arith in
      (rw (below, b.size) (ap done (omega (arith, b.room))), fit)

  -- Bucket_Capacity is at least the count: the units in use are units of the chunk.
  pub count-le-capacity :
      chunk_size w.bins.mem p / unit < u32_mod
      → (n : ℕ) × (capacity w p ≡ done n)
        × (count_of w.bins.mem p ≤ n)
        × (n * unit ≤ chunk_size w.bins.mem p)
  unfolding capacity
  count-le-capacity small =
      let n = chunk_size w.bins.mem p / unit in
      (
        n,
        rw (b.size, ==_false unit 0 (omega (arith, b.positive))) (ap done (omega arith)),
        (le-div_iff_mul-le b.positive).1 b.fits,
        div-mul-le_self (chunk_size w.bins.mem p) unit,
      )

  -- On such a bucket, with less than 2 ^ 32 units, and for an index below the count,
  -- Bucket_Iterate stores the place of the unit in slot tTRG and steps the index in slot Ix_TRG by
  -- one.
  pub iterate_lem :
      (request : Request)
      → slot request t_src ≡ p
      → 16 ≤ length request.params
      → slot request ix_trg < count_of w.bins.mem p
      → count_of w.bins.mem p < u32_mod
      → (r : Reply) × (iterate_bucket w request ≡ done r)
        × (r.answer ≡ true)
        × (get_or r.params 1 0 ≡ chunk_head w.bins.mem p + slot request ix_trg * unit)
        × (get_or r.params 3 0 ≡ slot request ix_trg + 1)
  unfolding iterate_bucket
  iterate_lem request at len lt small =
      let ix = slot request ix_trg in
      let ptr = chunk_head w.bins.mem p + ix * unit in
      let params' = set request.params 1 ptr in
      let small' : ix % u32_mod ≡ ix = omega arith in
      (
        record { answer = true; params = set params' 3 (add64 ix 1); world = w },
        rw (at, small', (get_ptr_lem ix lt).0),
        refl,
        get_or-set_ne params' 3 1 (add64 ix 1) 0 (omega arith)
            ∙ get_or-set_self request.params 1 ptr 0 (omega arith),
        get_or-set_self params' 3 (add64 ix 1) 0 (omega (arith, length-set request.params 1 ptr))
            ∙ omega arith,
      )

-- Of the requests to manage it a bucket grants only the one for its chunk; it cannot be resized.
pub manage_refused :
    (w : World) (request : Request)
    → slot request t_variant % u32_mod ≢ param_option_code t_chunk
    → manage_bucket w request ≡ reply false request w
unfolding manage_bucket
manage_refused w request other = ground arith

-- A size request of a bucket is answered with the words of its count and its lock, and the answer
-- goes to the address in slot tSIZE and not to the one in slot tTRG.
pub info_size :
    (w : World) (request : Request)
    → slot request t_variant % u32_mod ≡ slot_code t_size
    → let bucket = slot request t_src in
      info_bucket w request
      ≡ done (
          reply true request (
            set_mem w (
              store64 w.bins.mem
                (slot request t_size)
                (count_of w.bins.mem bucket + 4294967296 * lock_of w.bins.mem bucket))))
unfolding info_bucket load64
info_size w request e = rw e (
    ap
      (λ a. done (
        reply true request (
          set_mem w (
            store64 w.bins.mem (slot request t_size)
              (load32 w.bins.mem (slot request t_src + 8) + 4294967296 * load32 w.bins.mem a)))))
      (omega arith))
