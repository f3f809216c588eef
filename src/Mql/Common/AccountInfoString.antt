-- ===== src/Mql/Common/AccountInfoString.antt =====
-- common/mql-cpp/account-info.hpp, mql::common::AccountInfoString
use packet_distribution_syst.Prelude.{refl}
use packet_distribution_syst.Archive.{Codec, Serializer, member, primitive, ◌⨾◌, Bytes}
use packet_distribution_syst.Archive.Transfers.{Arrives, member-Transfers, primitive-Arrives, ◌⨟◌}

pub record AccountInfoString : Type 0 where
  pub account_name : Bytes
  pub trade_server_name : Bytes
  pub account_currency : Bytes
  pub account_company : Bytes

module _ (C : Codec) where
  unfoldable pub serialize : Serializer AccountInfoString
  serialize =
      member (primitive C.text) (λ this. this.account_name)
        (λ this v. record this { account_name = v })
      ⨾ member (primitive C.text) (λ this. this.trade_server_name)
          (λ this v. record this { trade_server_name = v })
      ⨾ member (primitive C.text) (λ this. this.account_currency)
          (λ this v. record this { account_currency = v })
      ⨾ member (primitive C.text) (λ this. this.account_company)
          (λ this v. record this { account_company = v })

  -- Saved, and then loaded into whatever object stands at the other end, any object arrives whole,
  -- and what follows it is left unread.
  pub account_info_string-Arrives : (x : AccountInfoString) → Arrives serialize x
  unfolding serialize
  account_info_string-Arrives x =
      member-Transfers _ _ _ x refl (primitive-Arrives C.text x.account_name tt)
      ⨟ member-Transfers _ _ _ x refl (primitive-Arrives C.text x.trade_server_name tt)
      ⨟ member-Transfers _ _ _ x refl (primitive-Arrives C.text x.account_currency tt)
      ⨟ member-Transfers _ _ _ x refl (primitive-Arrives C.text x.account_company tt)
