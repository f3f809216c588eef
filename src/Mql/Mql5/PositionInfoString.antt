-- ===== src/Mql/Mql5/PositionInfoString.antt =====
-- common/mql-cpp/trade-info.hpp, mql::mql5::PositionInfoString
use packet_distribution_syst.Prelude.{refl}
use packet_distribution_syst.Archive.{Codec, Serializer, member, primitive, ◌⨾◌, Bytes}
use packet_distribution_syst.Archive.Transfers.{Arrives, member-Transfers, primitive-Arrives, ◌⨟◌}

pub record PositionInfoString : Type 0 where
  pub symbol : Bytes
  pub comment : Bytes
  pub external_id : Bytes

module _ (C : Codec) where
  unfoldable pub serialize : Serializer PositionInfoString
  serialize =
      member (primitive C.text) (λ this. this.symbol) (λ this v. record this { symbol = v })
      ⨾ member (primitive C.text) (λ this. this.comment) (λ this v. record this { comment = v })
      ⨾ member (primitive C.text) (λ this. this.external_id)
          (λ this v. record this { external_id = v })

  -- Saved, and then loaded into whatever object stands at the other end, any object arrives whole,
  -- and what follows it is left unread.
  pub mql5_position_info_string-Arrives : (x : PositionInfoString) → Arrives serialize x
  unfolding serialize
  mql5_position_info_string-Arrives x =
      member-Transfers _ _ _ x refl (primitive-Arrives C.text x.symbol tt)
      ⨟ member-Transfers _ _ _ x refl (primitive-Arrives C.text x.comment tt)
      ⨟ member-Transfers _ _ _ x refl (primitive-Arrives C.text x.external_id tt)
