-- ===== src/Keygen/Command/Options.antt =====
-- keygen/main.cc, main: the names of its options and their default values.
use packet_distribution_syst.Prelude.{List, [], ◌∷◌}
use packet_distribution_syst.Archive.{Bytes}

abbrev pub opt_curve : Bytes
opt_curve = b'c' ∷ b'u' ∷ b'r' ∷ b'v' ∷ b'e' ∷ []

abbrev pub opt_amount : Bytes
opt_amount = b'a' ∷ b'm' ∷ b'o' ∷ b'u' ∷ b'n' ∷ b't' ∷ []

abbrev pub opt_force : Bytes
opt_force = b'f' ∷ b'o' ∷ b'r' ∷ b'c' ∷ b'e' ∷ []

abbrev pub opt_merge : Bytes
opt_merge = b'm' ∷ b'e' ∷ b'r' ∷ b'g' ∷ b'e' ∷ []

abbrev pub opt_help : Bytes
opt_help = b'h' ∷ b'e' ∷ b'l' ∷ b'p' ∷ []

abbrev pub opt_public_merged : Bytes
opt_public_merged =
    b'p' ∷ b'u' ∷ b'b' ∷ b'l' ∷ b'i' ∷ b'c' ∷ b'-' ∷ b'k' ∷ b'e' ∷ b'y' ∷ b'-' ∷ b'm' ∷ b'e' ∷ b'r'
    ∷ b'g' ∷ b'e' ∷ b'd' ∷ b'-' ∷ b'f' ∷ b'i' ∷ b'l' ∷ b'e' ∷ []

abbrev pub opt_private_merged : Bytes
opt_private_merged =
    b'p' ∷ b'r' ∷ b'i' ∷ b'v' ∷ b'a' ∷ b't' ∷ b'e' ∷ b'-' ∷ b'k' ∷ b'e' ∷ b'y' ∷ b'-' ∷ b'm' ∷ b'e'
    ∷ b'r' ∷ b'g' ∷ b'e' ∷ b'd' ∷ b'-' ∷ b'f' ∷ b'i' ∷ b'l' ∷ b'e' ∷ []

abbrev pub opt_private_folder : Bytes
opt_private_folder =
    b'p' ∷ b'r' ∷ b'i' ∷ b'v' ∷ b'a' ∷ b't' ∷ b'e' ∷ b'-' ∷ b'k' ∷ b'e' ∷ b'y' ∷ b'-' ∷ b'o' ∷ b'u'
    ∷ b't' ∷ b'p' ∷ b'u' ∷ b't' ∷ b'-' ∷ b'f' ∷ b'o' ∷ b'l' ∷ b'd' ∷ b'e' ∷ b'r' ∷ []

abbrev pub opt_public_folder : Bytes
opt_public_folder =
    b'p' ∷ b'u' ∷ b'b' ∷ b'l' ∷ b'i' ∷ b'c' ∷ b'-' ∷ b'k' ∷ b'e' ∷ b'y' ∷ b'-' ∷ b'o' ∷ b'u' ∷ b't'
    ∷ b'p' ∷ b'u' ∷ b't' ∷ b'-' ∷ b'f' ∷ b'o' ∷ b'l' ∷ b'd' ∷ b'e' ∷ b'r' ∷ []

abbrev pub opt_private_output : Bytes
opt_private_output =
    b'p' ∷ b'r' ∷ b'i' ∷ b'v' ∷ b'a' ∷ b't' ∷ b'e' ∷ b'-' ∷ b'k' ∷ b'e' ∷ b'y' ∷ b'-' ∷ b'o' ∷ b'u'
    ∷ b't' ∷ b'p' ∷ b'u' ∷ b't' ∷ []

abbrev pub opt_public_output : Bytes
opt_public_output =
    b'p' ∷ b'u' ∷ b'b' ∷ b'l' ∷ b'i' ∷ b'c' ∷ b'-' ∷ b'k' ∷ b'e' ∷ b'y' ∷ b'-' ∷ b'o' ∷ b'u' ∷ b't'
    ∷ b'p' ∷ b'u' ∷ b't' ∷ []

abbrev pub private : Bytes
private = b'p' ∷ b'r' ∷ b'i' ∷ b'v' ∷ b'a' ∷ b't' ∷ b'e' ∷ []

abbrev pub public : Bytes
public = b'p' ∷ b'u' ∷ b'b' ∷ b'l' ∷ b'i' ∷ b'c' ∷ []

abbrev pub secp256k1 : Bytes
secp256k1 = b's' ∷ b'e' ∷ b'c' ∷ b'p' ∷ b'2' ∷ b'5' ∷ b'6' ∷ b'k' ∷ b'1' ∷ []

-- What `desc.add_options()` registers.
abbrev pub registered : List Bytes
registered =
    opt_help ∷ opt_private_folder ∷ opt_public_folder ∷ opt_curve ∷ opt_amount ∷ opt_force
    ∷ opt_merge ∷ opt_public_merged ∷ opt_private_merged ∷ []
