-- ===== src/Crc/Tables/Table1.antt =====
-- Row 1 of `crc32c_tables` in tools/hash.c: the register after 16 steps from each byte.
use pkt_sender.Prelude.{ℕ, ◌≡◌, refl, List, [], ◌∷◌}
use pkt_sender.Crc.Reference.{crc_bits}
use pkt_sender.Crc.Tables.Rows.{rows}

unfoldable pub table_1 : List ℕ
table_1 =
    0x00000000 ∷ 0x13A29877 ∷ 0x274530EE ∷ 0x34E7A899 ∷ 0x4E8A61DC ∷ 0x5D28F9AB ∷ 0x69CF5132
    ∷ 0x7A6DC945 ∷ 0x9D14C3B8 ∷ 0x8EB65BCF ∷ 0xBA51F356 ∷ 0xA9F36B21 ∷ 0xD39EA264 ∷ 0xC03C3A13
    ∷ 0xF4DB928A ∷ 0xE7790AFD ∷ 0x3FC5F181 ∷ 0x2C6769F6 ∷ 0x1880C16F ∷ 0x0B225918 ∷ 0x714F905D
    ∷ 0x62ED082A ∷ 0x560AA0B3 ∷ 0x45A838C4 ∷ 0xA2D13239 ∷ 0xB173AA4E ∷ 0x859402D7 ∷ 0x96369AA0
    ∷ 0xEC5B53E5 ∷ 0xFFF9CB92 ∷ 0xCB1E630B ∷ 0xD8BCFB7C ∷ 0x7F8BE302 ∷ 0x6C297B75 ∷ 0x58CED3EC
    ∷ 0x4B6C4B9B ∷ 0x310182DE ∷ 0x22A31AA9 ∷ 0x1644B230 ∷ 0x05E62A47 ∷ 0xE29F20BA ∷ 0xF13DB8CD
    ∷ 0xC5DA1054 ∷ 0xD6788823 ∷ 0xAC154166 ∷ 0xBFB7D911 ∷ 0x8B507188 ∷ 0x98F2E9FF ∷ 0x404E1283
    ∷ 0x53EC8AF4 ∷ 0x670B226D ∷ 0x74A9BA1A ∷ 0x0EC4735F ∷ 0x1D66EB28 ∷ 0x298143B1 ∷ 0x3A23DBC6
    ∷ 0xDD5AD13B ∷ 0xCEF8494C ∷ 0xFA1FE1D5 ∷ 0xE9BD79A2 ∷ 0x93D0B0E7 ∷ 0x80722890 ∷ 0xB4958009
    ∷ 0xA737187E ∷ 0xFF17C604 ∷ 0xECB55E73 ∷ 0xD852F6EA ∷ 0xCBF06E9D ∷ 0xB19DA7D8 ∷ 0xA23F3FAF
    ∷ 0x96D89736 ∷ 0x857A0F41 ∷ 0x620305BC ∷ 0x71A19DCB ∷ 0x45463552 ∷ 0x56E4AD25 ∷ 0x2C896460
    ∷ 0x3F2BFC17 ∷ 0x0BCC548E ∷ 0x186ECCF9 ∷ 0xC0D23785 ∷ 0xD370AFF2 ∷ 0xE797076B ∷ 0xF4359F1C
    ∷ 0x8E585659 ∷ 0x9DFACE2E ∷ 0xA91D66B7 ∷ 0xBABFFEC0 ∷ 0x5DC6F43D ∷ 0x4E646C4A ∷ 0x7A83C4D3
    ∷ 0x69215CA4 ∷ 0x134C95E1 ∷ 0x00EE0D96 ∷ 0x3409A50F ∷ 0x27AB3D78 ∷ 0x809C2506 ∷ 0x933EBD71
    ∷ 0xA7D915E8 ∷ 0xB47B8D9F ∷ 0xCE1644DA ∷ 0xDDB4DCAD ∷ 0xE9537434 ∷ 0xFAF1EC43 ∷ 0x1D88E6BE
    ∷ 0x0E2A7EC9 ∷ 0x3ACDD650 ∷ 0x296F4E27 ∷ 0x53028762 ∷ 0x40A01F15 ∷ 0x7447B78C ∷ 0x67E52FFB
    ∷ 0xBF59D487 ∷ 0xACFB4CF0 ∷ 0x981CE469 ∷ 0x8BBE7C1E ∷ 0xF1D3B55B ∷ 0xE2712D2C ∷ 0xD69685B5
    ∷ 0xC5341DC2 ∷ 0x224D173F ∷ 0x31EF8F48 ∷ 0x050827D1 ∷ 0x16AABFA6 ∷ 0x6CC776E3 ∷ 0x7F65EE94
    ∷ 0x4B82460D ∷ 0x5820DE7A ∷ 0xFBC3FAF9 ∷ 0xE861628E ∷ 0xDC86CA17 ∷ 0xCF245260 ∷ 0xB5499B25
    ∷ 0xA6EB0352 ∷ 0x920CABCB ∷ 0x81AE33BC ∷ 0x66D73941 ∷ 0x7575A136 ∷ 0x419209AF ∷ 0x523091D8
    ∷ 0x285D589D ∷ 0x3BFFC0EA ∷ 0x0F186873 ∷ 0x1CBAF004 ∷ 0xC4060B78 ∷ 0xD7A4930F ∷ 0xE3433B96
    ∷ 0xF0E1A3E1 ∷ 0x8A8C6AA4 ∷ 0x992EF2D3 ∷ 0xADC95A4A ∷ 0xBE6BC23D ∷ 0x5912C8C0 ∷ 0x4AB050B7
    ∷ 0x7E57F82E ∷ 0x6DF56059 ∷ 0x1798A91C ∷ 0x043A316B ∷ 0x30DD99F2 ∷ 0x237F0185 ∷ 0x844819FB
    ∷ 0x97EA818C ∷ 0xA30D2915 ∷ 0xB0AFB162 ∷ 0xCAC27827 ∷ 0xD960E050 ∷ 0xED8748C9 ∷ 0xFE25D0BE
    ∷ 0x195CDA43 ∷ 0x0AFE4234 ∷ 0x3E19EAAD ∷ 0x2DBB72DA ∷ 0x57D6BB9F ∷ 0x447423E8 ∷ 0x70938B71
    ∷ 0x63311306 ∷ 0xBB8DE87A ∷ 0xA82F700D ∷ 0x9CC8D894 ∷ 0x8F6A40E3 ∷ 0xF50789A6 ∷ 0xE6A511D1
    ∷ 0xD242B948 ∷ 0xC1E0213F ∷ 0x26992BC2 ∷ 0x353BB3B5 ∷ 0x01DC1B2C ∷ 0x127E835B ∷ 0x68134A1E
    ∷ 0x7BB1D269 ∷ 0x4F567AF0 ∷ 0x5CF4E287 ∷ 0x04D43CFD ∷ 0x1776A48A ∷ 0x23910C13 ∷ 0x30339464
    ∷ 0x4A5E5D21 ∷ 0x59FCC556 ∷ 0x6D1B6DCF ∷ 0x7EB9F5B8 ∷ 0x99C0FF45 ∷ 0x8A626732 ∷ 0xBE85CFAB
    ∷ 0xAD2757DC ∷ 0xD74A9E99 ∷ 0xC4E806EE ∷ 0xF00FAE77 ∷ 0xE3AD3600 ∷ 0x3B11CD7C ∷ 0x28B3550B
    ∷ 0x1C54FD92 ∷ 0x0FF665E5 ∷ 0x759BACA0 ∷ 0x663934D7 ∷ 0x52DE9C4E ∷ 0x417C0439 ∷ 0xA6050EC4
    ∷ 0xB5A796B3 ∷ 0x81403E2A ∷ 0x92E2A65D ∷ 0xE88F6F18 ∷ 0xFB2DF76F ∷ 0xCFCA5FF6 ∷ 0xDC68C781
    ∷ 0x7B5FDFFF ∷ 0x68FD4788 ∷ 0x5C1AEF11 ∷ 0x4FB87766 ∷ 0x35D5BE23 ∷ 0x26772654 ∷ 0x12908ECD
    ∷ 0x013216BA ∷ 0xE64B1C47 ∷ 0xF5E98430 ∷ 0xC10E2CA9 ∷ 0xD2ACB4DE ∷ 0xA8C17D9B ∷ 0xBB63E5EC
    ∷ 0x8F844D75 ∷ 0x9C26D502 ∷ 0x449A2E7E ∷ 0x5738B609 ∷ 0x63DF1E90 ∷ 0x707D86E7 ∷ 0x0A104FA2
    ∷ 0x19B2D7D5 ∷ 0x2D557F4C ∷ 0x3EF7E73B ∷ 0xD98EEDC6 ∷ 0xCA2C75B1 ∷ 0xFECBDD28 ∷ 0xED69455F
    ∷ 0x97048C1A ∷ 0x84A6146D ∷ 0xB041BCF4 ∷ 0xA3E32483 ∷ []

pub table_1-eq-rows : table_1 ≡ rows 256 0 (crc_bits 16)
unfolding table_1 rows crc_bits
table_1-eq-rows = refl
