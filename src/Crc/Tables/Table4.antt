-- ===== src/Crc/Tables/Table4.antt =====
-- Row 4 of `crc32c_tables` in tools/hash.c: the register after 40 steps from each byte.
use pkt_sender.Prelude.{ℕ, ◌≡◌, refl, List, [], ◌∷◌}
use pkt_sender.Crc.Reference.{crc_bits}
use pkt_sender.Crc.Tables.Rows.{rows}

unfoldable pub table_4 : List ℕ
table_4 =
    0x00000000 ∷ 0x38116FAC ∷ 0x7022DF58 ∷ 0x4833B0F4 ∷ 0xE045BEB0 ∷ 0xD854D11C ∷ 0x906761E8
    ∷ 0xA8760E44 ∷ 0xC5670B91 ∷ 0xFD76643D ∷ 0xB545D4C9 ∷ 0x8D54BB65 ∷ 0x2522B521 ∷ 0x1D33DA8D
    ∷ 0x55006A79 ∷ 0x6D1105D5 ∷ 0x8F2261D3 ∷ 0xB7330E7F ∷ 0xFF00BE8B ∷ 0xC711D127 ∷ 0x6F67DF63
    ∷ 0x5776B0CF ∷ 0x1F45003B ∷ 0x27546F97 ∷ 0x4A456A42 ∷ 0x725405EE ∷ 0x3A67B51A ∷ 0x0276DAB6
    ∷ 0xAA00D4F2 ∷ 0x9211BB5E ∷ 0xDA220BAA ∷ 0xE2336406 ∷ 0x1BA8B557 ∷ 0x23B9DAFB ∷ 0x6B8A6A0F
    ∷ 0x539B05A3 ∷ 0xFBED0BE7 ∷ 0xC3FC644B ∷ 0x8BCFD4BF ∷ 0xB3DEBB13 ∷ 0xDECFBEC6 ∷ 0xE6DED16A
    ∷ 0xAEED619E ∷ 0x96FC0E32 ∷ 0x3E8A0076 ∷ 0x069B6FDA ∷ 0x4EA8DF2E ∷ 0x76B9B082 ∷ 0x948AD484
    ∷ 0xAC9BBB28 ∷ 0xE4A80BDC ∷ 0xDCB96470 ∷ 0x74CF6A34 ∷ 0x4CDE0598 ∷ 0x04EDB56C ∷ 0x3CFCDAC0
    ∷ 0x51EDDF15 ∷ 0x69FCB0B9 ∷ 0x21CF004D ∷ 0x19DE6FE1 ∷ 0xB1A861A5 ∷ 0x89B90E09 ∷ 0xC18ABEFD
    ∷ 0xF99BD151 ∷ 0x37516AAE ∷ 0x0F400502 ∷ 0x4773B5F6 ∷ 0x7F62DA5A ∷ 0xD714D41E ∷ 0xEF05BBB2
    ∷ 0xA7360B46 ∷ 0x9F2764EA ∷ 0xF236613F ∷ 0xCA270E93 ∷ 0x8214BE67 ∷ 0xBA05D1CB ∷ 0x1273DF8F
    ∷ 0x2A62B023 ∷ 0x625100D7 ∷ 0x5A406F7B ∷ 0xB8730B7D ∷ 0x806264D1 ∷ 0xC851D425 ∷ 0xF040BB89
    ∷ 0x5836B5CD ∷ 0x6027DA61 ∷ 0x28146A95 ∷ 0x10050539 ∷ 0x7D1400EC ∷ 0x45056F40 ∷ 0x0D36DFB4
    ∷ 0x3527B018 ∷ 0x9D51BE5C ∷ 0xA540D1F0 ∷ 0xED736104 ∷ 0xD5620EA8 ∷ 0x2CF9DFF9 ∷ 0x14E8B055
    ∷ 0x5CDB00A1 ∷ 0x64CA6F0D ∷ 0xCCBC6149 ∷ 0xF4AD0EE5 ∷ 0xBC9EBE11 ∷ 0x848FD1BD ∷ 0xE99ED468
    ∷ 0xD18FBBC4 ∷ 0x99BC0B30 ∷ 0xA1AD649C ∷ 0x09DB6AD8 ∷ 0x31CA0574 ∷ 0x79F9B580 ∷ 0x41E8DA2C
    ∷ 0xA3DBBE2A ∷ 0x9BCAD186 ∷ 0xD3F96172 ∷ 0xEBE80EDE ∷ 0x439E009A ∷ 0x7B8F6F36 ∷ 0x33BCDFC2
    ∷ 0x0BADB06E ∷ 0x66BCB5BB ∷ 0x5EADDA17 ∷ 0x169E6AE3 ∷ 0x2E8F054F ∷ 0x86F90B0B ∷ 0xBEE864A7
    ∷ 0xF6DBD453 ∷ 0xCECABBFF ∷ 0x6EA2D55C ∷ 0x56B3BAF0 ∷ 0x1E800A04 ∷ 0x269165A8 ∷ 0x8EE76BEC
    ∷ 0xB6F60440 ∷ 0xFEC5B4B4 ∷ 0xC6D4DB18 ∷ 0xABC5DECD ∷ 0x93D4B161 ∷ 0xDBE70195 ∷ 0xE3F66E39
    ∷ 0x4B80607D ∷ 0x73910FD1 ∷ 0x3BA2BF25 ∷ 0x03B3D089 ∷ 0xE180B48F ∷ 0xD991DB23 ∷ 0x91A26BD7
    ∷ 0xA9B3047B ∷ 0x01C50A3F ∷ 0x39D46593 ∷ 0x71E7D567 ∷ 0x49F6BACB ∷ 0x24E7BF1E ∷ 0x1CF6D0B2
    ∷ 0x54C56046 ∷ 0x6CD40FEA ∷ 0xC4A201AE ∷ 0xFCB36E02 ∷ 0xB480DEF6 ∷ 0x8C91B15A ∷ 0x750A600B
    ∷ 0x4D1B0FA7 ∷ 0x0528BF53 ∷ 0x3D39D0FF ∷ 0x954FDEBB ∷ 0xAD5EB117 ∷ 0xE56D01E3 ∷ 0xDD7C6E4F
    ∷ 0xB06D6B9A ∷ 0x887C0436 ∷ 0xC04FB4C2 ∷ 0xF85EDB6E ∷ 0x5028D52A ∷ 0x6839BA86 ∷ 0x200A0A72
    ∷ 0x181B65DE ∷ 0xFA2801D8 ∷ 0xC2396E74 ∷ 0x8A0ADE80 ∷ 0xB21BB12C ∷ 0x1A6DBF68 ∷ 0x227CD0C4
    ∷ 0x6A4F6030 ∷ 0x525E0F9C ∷ 0x3F4F0A49 ∷ 0x075E65E5 ∷ 0x4F6DD511 ∷ 0x777CBABD ∷ 0xDF0AB4F9
    ∷ 0xE71BDB55 ∷ 0xAF286BA1 ∷ 0x9739040D ∷ 0x59F3BFF2 ∷ 0x61E2D05E ∷ 0x29D160AA ∷ 0x11C00F06
    ∷ 0xB9B60142 ∷ 0x81A76EEE ∷ 0xC994DE1A ∷ 0xF185B1B6 ∷ 0x9C94B463 ∷ 0xA485DBCF ∷ 0xECB66B3B
    ∷ 0xD4A70497 ∷ 0x7CD10AD3 ∷ 0x44C0657F ∷ 0x0CF3D58B ∷ 0x34E2BA27 ∷ 0xD6D1DE21 ∷ 0xEEC0B18D
    ∷ 0xA6F30179 ∷ 0x9EE26ED5 ∷ 0x36946091 ∷ 0x0E850F3D ∷ 0x46B6BFC9 ∷ 0x7EA7D065 ∷ 0x13B6D5B0
    ∷ 0x2BA7BA1C ∷ 0x63940AE8 ∷ 0x5B856544 ∷ 0xF3F36B00 ∷ 0xCBE204AC ∷ 0x83D1B458 ∷ 0xBBC0DBF4
    ∷ 0x425B0AA5 ∷ 0x7A4A6509 ∷ 0x3279D5FD ∷ 0x0A68BA51 ∷ 0xA21EB415 ∷ 0x9A0FDBB9 ∷ 0xD23C6B4D
    ∷ 0xEA2D04E1 ∷ 0x873C0134 ∷ 0xBF2D6E98 ∷ 0xF71EDE6C ∷ 0xCF0FB1C0 ∷ 0x6779BF84 ∷ 0x5F68D028
    ∷ 0x175B60DC ∷ 0x2F4A0F70 ∷ 0xCD796B76 ∷ 0xF56804DA ∷ 0xBD5BB42E ∷ 0x854ADB82 ∷ 0x2D3CD5C6
    ∷ 0x152DBA6A ∷ 0x5D1E0A9E ∷ 0x650F6532 ∷ 0x081E60E7 ∷ 0x300F0F4B ∷ 0x783CBFBF ∷ 0x402DD013
    ∷ 0xE85BDE57 ∷ 0xD04AB1FB ∷ 0x9879010F ∷ 0xA0686EA3 ∷ []

pub table_4-eq-rows : table_4 ≡ rows 256 0 (crc_bits 40)
unfolding table_4 rows crc_bits
table_4-eq-rows = refl
