-- ===== src/Crc/Tables/Table3.antt =====
-- Row 3 of `crc32c_tables` in tools/hash.c: the register after 32 steps from each byte.
use pkt_sender.Prelude.{ℕ, ◌≡◌, refl, List, [], ◌∷◌}
use pkt_sender.Crc.Reference.{crc_bits}
use pkt_sender.Crc.Tables.Rows.{rows}

unfoldable pub table_3 : List ℕ
table_3 =
    0x00000000 ∷ 0xDD45AAB8 ∷ 0xBF672381 ∷ 0x62228939 ∷ 0x7B2231F3 ∷ 0xA6679B4B ∷ 0xC4451272
    ∷ 0x1900B8CA ∷ 0xF64463E6 ∷ 0x2B01C95E ∷ 0x49234067 ∷ 0x9466EADF ∷ 0x8D665215 ∷ 0x5023F8AD
    ∷ 0x32017194 ∷ 0xEF44DB2C ∷ 0xE964B13D ∷ 0x34211B85 ∷ 0x560392BC ∷ 0x8B463804 ∷ 0x924680CE
    ∷ 0x4F032A76 ∷ 0x2D21A34F ∷ 0xF06409F7 ∷ 0x1F20D2DB ∷ 0xC2657863 ∷ 0xA047F15A ∷ 0x7D025BE2
    ∷ 0x6402E328 ∷ 0xB9474990 ∷ 0xDB65C0A9 ∷ 0x06206A11 ∷ 0xD725148B ∷ 0x0A60BE33 ∷ 0x6842370A
    ∷ 0xB5079DB2 ∷ 0xAC072578 ∷ 0x71428FC0 ∷ 0x136006F9 ∷ 0xCE25AC41 ∷ 0x2161776D ∷ 0xFC24DDD5
    ∷ 0x9E0654EC ∷ 0x4343FE54 ∷ 0x5A43469E ∷ 0x8706EC26 ∷ 0xE524651F ∷ 0x3861CFA7 ∷ 0x3E41A5B6
    ∷ 0xE3040F0E ∷ 0x81268637 ∷ 0x5C632C8F ∷ 0x45639445 ∷ 0x98263EFD ∷ 0xFA04B7C4 ∷ 0x27411D7C
    ∷ 0xC805C650 ∷ 0x15406CE8 ∷ 0x7762E5D1 ∷ 0xAA274F69 ∷ 0xB327F7A3 ∷ 0x6E625D1B ∷ 0x0C40D422
    ∷ 0xD1057E9A ∷ 0xABA65FE7 ∷ 0x76E3F55F ∷ 0x14C17C66 ∷ 0xC984D6DE ∷ 0xD0846E14 ∷ 0x0DC1C4AC
    ∷ 0x6FE34D95 ∷ 0xB2A6E72D ∷ 0x5DE23C01 ∷ 0x80A796B9 ∷ 0xE2851F80 ∷ 0x3FC0B538 ∷ 0x26C00DF2
    ∷ 0xFB85A74A ∷ 0x99A72E73 ∷ 0x44E284CB ∷ 0x42C2EEDA ∷ 0x9F874462 ∷ 0xFDA5CD5B ∷ 0x20E067E3
    ∷ 0x39E0DF29 ∷ 0xE4A57591 ∷ 0x8687FCA8 ∷ 0x5BC25610 ∷ 0xB4868D3C ∷ 0x69C32784 ∷ 0x0BE1AEBD
    ∷ 0xD6A40405 ∷ 0xCFA4BCCF ∷ 0x12E11677 ∷ 0x70C39F4E ∷ 0xAD8635F6 ∷ 0x7C834B6C ∷ 0xA1C6E1D4
    ∷ 0xC3E468ED ∷ 0x1EA1C255 ∷ 0x07A17A9F ∷ 0xDAE4D027 ∷ 0xB8C6591E ∷ 0x6583F3A6 ∷ 0x8AC7288A
    ∷ 0x57828232 ∷ 0x35A00B0B ∷ 0xE8E5A1B3 ∷ 0xF1E51979 ∷ 0x2CA0B3C1 ∷ 0x4E823AF8 ∷ 0x93C79040
    ∷ 0x95E7FA51 ∷ 0x48A250E9 ∷ 0x2A80D9D0 ∷ 0xF7C57368 ∷ 0xEEC5CBA2 ∷ 0x3380611A ∷ 0x51A2E823
    ∷ 0x8CE7429B ∷ 0x63A399B7 ∷ 0xBEE6330F ∷ 0xDCC4BA36 ∷ 0x0181108E ∷ 0x1881A844 ∷ 0xC5C402FC
    ∷ 0xA7E68BC5 ∷ 0x7AA3217D ∷ 0x52A0C93F ∷ 0x8FE56387 ∷ 0xEDC7EABE ∷ 0x30824006 ∷ 0x2982F8CC
    ∷ 0xF4C75274 ∷ 0x96E5DB4D ∷ 0x4BA071F5 ∷ 0xA4E4AAD9 ∷ 0x79A10061 ∷ 0x1B838958 ∷ 0xC6C623E0
    ∷ 0xDFC69B2A ∷ 0x02833192 ∷ 0x60A1B8AB ∷ 0xBDE41213 ∷ 0xBBC47802 ∷ 0x6681D2BA ∷ 0x04A35B83
    ∷ 0xD9E6F13B ∷ 0xC0E649F1 ∷ 0x1DA3E349 ∷ 0x7F816A70 ∷ 0xA2C4C0C8 ∷ 0x4D801BE4 ∷ 0x90C5B15C
    ∷ 0xF2E73865 ∷ 0x2FA292DD ∷ 0x36A22A17 ∷ 0xEBE780AF ∷ 0x89C50996 ∷ 0x5480A32E ∷ 0x8585DDB4
    ∷ 0x58C0770C ∷ 0x3AE2FE35 ∷ 0xE7A7548D ∷ 0xFEA7EC47 ∷ 0x23E246FF ∷ 0x41C0CFC6 ∷ 0x9C85657E
    ∷ 0x73C1BE52 ∷ 0xAE8414EA ∷ 0xCCA69DD3 ∷ 0x11E3376B ∷ 0x08E38FA1 ∷ 0xD5A62519 ∷ 0xB784AC20
    ∷ 0x6AC10698 ∷ 0x6CE16C89 ∷ 0xB1A4C631 ∷ 0xD3864F08 ∷ 0x0EC3E5B0 ∷ 0x17C35D7A ∷ 0xCA86F7C2
    ∷ 0xA8A47EFB ∷ 0x75E1D443 ∷ 0x9AA50F6F ∷ 0x47E0A5D7 ∷ 0x25C22CEE ∷ 0xF8878656 ∷ 0xE1873E9C
    ∷ 0x3CC29424 ∷ 0x5EE01D1D ∷ 0x83A5B7A5 ∷ 0xF90696D8 ∷ 0x24433C60 ∷ 0x4661B559 ∷ 0x9B241FE1
    ∷ 0x8224A72B ∷ 0x5F610D93 ∷ 0x3D4384AA ∷ 0xE0062E12 ∷ 0x0F42F53E ∷ 0xD2075F86 ∷ 0xB025D6BF
    ∷ 0x6D607C07 ∷ 0x7460C4CD ∷ 0xA9256E75 ∷ 0xCB07E74C ∷ 0x16424DF4 ∷ 0x106227E5 ∷ 0xCD278D5D
    ∷ 0xAF050464 ∷ 0x7240AEDC ∷ 0x6B401616 ∷ 0xB605BCAE ∷ 0xD4273597 ∷ 0x09629F2F ∷ 0xE6264403
    ∷ 0x3B63EEBB ∷ 0x59416782 ∷ 0x8404CD3A ∷ 0x9D0475F0 ∷ 0x4041DF48 ∷ 0x22635671 ∷ 0xFF26FCC9
    ∷ 0x2E238253 ∷ 0xF36628EB ∷ 0x9144A1D2 ∷ 0x4C010B6A ∷ 0x5501B3A0 ∷ 0x88441918 ∷ 0xEA669021
    ∷ 0x37233A99 ∷ 0xD867E1B5 ∷ 0x05224B0D ∷ 0x6700C234 ∷ 0xBA45688C ∷ 0xA345D046 ∷ 0x7E007AFE
    ∷ 0x1C22F3C7 ∷ 0xC167597F ∷ 0xC747336E ∷ 0x1A0299D6 ∷ 0x782010EF ∷ 0xA565BA57 ∷ 0xBC65029D
    ∷ 0x6120A825 ∷ 0x0302211C ∷ 0xDE478BA4 ∷ 0x31035088 ∷ 0xEC46FA30 ∷ 0x8E647309 ∷ 0x5321D9B1
    ∷ 0x4A21617B ∷ 0x9764CBC3 ∷ 0xF54642FA ∷ 0x2803E842 ∷ []

pub table_3-eq-rows : table_3 ≡ rows 256 0 (crc_bits 32)
unfolding table_3 rows crc_bits
table_3-eq-rows = refl
