-- ===== src/Tests/Names.antt =====
-- Names and object paths.
use udisks_lvm.Base.{true, false, not, ◌&&◌, some, [], ◌∷◌, Bytes, codes, ◌≡◌, arith, All}
use udisks_lvm.Util.Name.{encode_lvm_name, decode_lvm_name, needs_encoding, starts_with_dash}
use udisks_lvm.Util.Name.Charset.{encode_lvm_name-IsLvmChar, IsLvmChar}
use udisks_lvm.Util.Name.RoundTrip.{decode-encode}
use udisks_lvm.VolumeGroup.Visible.{visible-encode, lv_is_visible, begins_reserved}

-- a name with a blank, a plus sign and a character of two bytes
abbrev odd_name : Bytes
odd_name = b'a' ∷ b' ' ∷ b'+' ∷ 195 ∷ 164 ∷ []

decode-encode_example : decode_lvm_name (encode_lvm_name odd_name true) ≡ odd_name
decode-encode_example = decode-encode odd_name true (omega arith)

encode_lvm_name-IsLvmChar_example :
    All IsLvmChar (encode_lvm_name odd_name true)
    × (starts_with_dash (encode_lvm_name odd_name true) ≡ false)
encode_lvm_name-IsLvmChar_example = encode_lvm_name-IsLvmChar odd_name true (omega arith)

visible-encode_example :
    lv_is_visible (some (encode_lvm_name (codes "mlog1") true))
    ≡ not (needs_encoding (codes "mlog1") true && begins_reserved (codes "mlog1"))
visible-encode_example = visible-encode (codes "mlog1") (omega arith)
