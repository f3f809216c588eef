-- ===== src/NodeInfo/Disk.antt =====
-- common/packets/node-info.hpp, _internal::DiskInfo
use packet_distribution_syst.Prelude.{refl, []}
use packet_distribution_syst.Archive.{Bytes, Codec, Serializer, primitive, member, ◌⨾◌}
use packet_distribution_syst.Archive.Transfers.{Arrives, primitive-Arrives, member-Transfers, ◌⨟◌}

pub record DiskInfo (Double : Type 0) : Type 0 where
  pub name : Bytes
  pub available_bytes : Double
  pub total_bytes : Double

-- `DiskInfo()`, with the double that value initialization gives.
unfoldable pub value_initialized : {Double : Type 0} → Double → DiskInfo Double
value_initialized d = record { name = []; available_bytes = d; total_bytes = d }

module _ (C : Codec) where
  unfoldable pub serialize : Serializer (DiskInfo C.Double)
  serialize =
      member (primitive C.text) (λ this. this.name) (λ this v. record this { name = v })
      ⨾ member (primitive C.double) (λ this. this.available_bytes)
          (λ this v. record this { available_bytes = v })
      ⨾ member (primitive C.double) (λ this. this.total_bytes)
          (λ this v. record this { total_bytes = v })

  -- The entry for a disk arrives whole, whatever it is loaded into.
  pub disk_info-Arrives : (x : DiskInfo C.Double) → Arrives serialize x
  unfolding serialize
  disk_info-Arrives x =
      member-Transfers _ _ _ x refl (primitive-Arrives C.text x.name tt)
      ⨟ member-Transfers _ _ _ x refl (primitive-Arrives C.double x.available_bytes tt)
      ⨟ member-Transfers _ _ _ x refl (primitive-Arrives C.double x.total_bytes tt)
