-- ===== src/Mql/DateTime.antt =====
-- common/mql-cpp/common.hpp: `MQL_DateTime`, a count of milliseconds in an int64_t, which crosses the
-- archive as a uint64_t.
use packet_distribution_syst.Prelude.{
  ℤ, IsInt64, some, refl, to_uint64, to_int64, to_uint64-IsUint64, to_int64-to_uint64,
}
use packet_distribution_syst.Archive.{Codec, Serializer, saving, loading, primitive, ◌>>=◌}
use packet_distribution_syst.Archive.Transfers.{Arrives}

pub record MqlDateTime : Type 0 where
  -- `time_since_epoch().count()`
  pub count : ℤ

abbrev pub Fits : MqlDateTime → Type 0
Fits t = IsInt64 t.count

module _ (C : Codec) where
  unfoldable pub serialize : Serializer MqlDateTime
  serialize saving time_point out =
      primitive C.uint64 saving (to_uint64 time_point.count) out >>= λ (_, out').
      some (time_point, out')
  serialize loading time_point input = primitive C.uint64 loading 0 input >>= λ (uint_time, rest).
      some (record { count = to_int64 uint_time }, rest)

  -- Saved, and then loaded into whatever time stands at the other end, a time in the range of int64_t
  -- arrives, also one before 1970.
  pub date_time-Arrives : (t : MqlDateTime) → Fits t → Arrives serialize t
  unfolding serialize primitive
  date_time-Arrives t fits = record {
    encoding = C.uint64.put (to_uint64 t.count);
    saves = λ out. refl;
    loads = λ y rest.
        rw
          (
            C.uint64.get-put (to_uint64 t.count) rest (to_uint64-IsUint64 t.count),
            to_int64-to_uint64 t.count fits,
          )
          refl;
  }
