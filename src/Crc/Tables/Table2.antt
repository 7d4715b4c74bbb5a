-- ===== src/Crc/Tables/Table2.antt =====
-- Row 2 of `crc32c_tables` in tools/hash.c: the register after 24 steps from each byte.
use pkt_sender.Prelude.{ℕ, ◌≡◌, refl, List, [], ◌∷◌}
use pkt_sender.Crc.Reference.{crc_bits}
use pkt_sender.Crc.Tables.Rows.{rows}

unfoldable pub table_2 : List ℕ
table_2 =
    0x00000000 ∷ 0xA541927E ∷ 0x4F6F520D ∷ 0xEA2EC073 ∷ 0x9EDEA41A ∷ 0x3B9F3664 ∷ 0xD1B1F617
    ∷ 0x74F06469 ∷ 0x38513EC5 ∷ 0x9D10ACBB ∷ 0x773E6CC8 ∷ 0xD27FFEB6 ∷ 0xA68F9ADF ∷ 0x03CE08A1
    ∷ 0xE9E0C8D2 ∷ 0x4CA15AAC ∷ 0x70A27D8A ∷ 0xD5E3EFF4 ∷ 0x3FCD2F87 ∷ 0x9A8CBDF9 ∷ 0xEE7CD990
    ∷ 0x4B3D4BEE ∷ 0xA1138B9D ∷ 0x045219E3 ∷ 0x48F3434F ∷ 0xEDB2D131 ∷ 0x079C1142 ∷ 0xA2DD833C
    ∷ 0xD62DE755 ∷ 0x736C752B ∷ 0x9942B558 ∷ 0x3C032726 ∷ 0xE144FB14 ∷ 0x4405696A ∷ 0xAE2BA919
    ∷ 0x0B6A3B67 ∷ 0x7F9A5F0E ∷ 0xDADBCD70 ∷ 0x30F50D03 ∷ 0x95B49F7D ∷ 0xD915C5D1 ∷ 0x7C5457AF
    ∷ 0x967A97DC ∷ 0x333B05A2 ∷ 0x47CB61CB ∷ 0xE28AF3B5 ∷ 0x08A433C6 ∷ 0xADE5A1B8 ∷ 0x91E6869E
    ∷ 0x34A714E0 ∷ 0xDE89D493 ∷ 0x7BC846ED ∷ 0x0F382284 ∷ 0xAA79B0FA ∷ 0x40577089 ∷ 0xE516E2F7
    ∷ 0xA9B7B85B ∷ 0x0CF62A25 ∷ 0xE6D8EA56 ∷ 0x43997828 ∷ 0x37691C41 ∷ 0x92288E3F ∷ 0x78064E4C
    ∷ 0xDD47DC32 ∷ 0xC76580D9 ∷ 0x622412A7 ∷ 0x880AD2D4 ∷ 0x2D4B40AA ∷ 0x59BB24C3 ∷ 0xFCFAB6BD
    ∷ 0x16D476CE ∷ 0xB395E4B0 ∷ 0xFF34BE1C ∷ 0x5A752C62 ∷ 0xB05BEC11 ∷ 0x151A7E6F ∷ 0x61EA1A06
    ∷ 0xC4AB8878 ∷ 0x2E85480B ∷ 0x8BC4DA75 ∷ 0xB7C7FD53 ∷ 0x12866F2D ∷ 0xF8A8AF5E ∷ 0x5DE93D20
    ∷ 0x29195949 ∷ 0x8C58CB37 ∷ 0x66760B44 ∷ 0xC337993A ∷ 0x8F96C396 ∷ 0x2AD751E8 ∷ 0xC0F9919B
    ∷ 0x65B803E5 ∷ 0x1148678C ∷ 0xB409F5F2 ∷ 0x5E273581 ∷ 0xFB66A7FF ∷ 0x26217BCD ∷ 0x8360E9B3
    ∷ 0x694E29C0 ∷ 0xCC0FBBBE ∷ 0xB8FFDFD7 ∷ 0x1DBE4DA9 ∷ 0xF7908DDA ∷ 0x52D11FA4 ∷ 0x1E704508
    ∷ 0xBB31D776 ∷ 0x511F1705 ∷ 0xF45E857B ∷ 0x80AEE112 ∷ 0x25EF736C ∷ 0xCFC1B31F ∷ 0x6A802161
    ∷ 0x56830647 ∷ 0xF3C29439 ∷ 0x19EC544A ∷ 0xBCADC634 ∷ 0xC85DA25D ∷ 0x6D1C3023 ∷ 0x8732F050
    ∷ 0x2273622E ∷ 0x6ED23882 ∷ 0xCB93AAFC ∷ 0x21BD6A8F ∷ 0x84FCF8F1 ∷ 0xF00C9C98 ∷ 0x554D0EE6
    ∷ 0xBF63CE95 ∷ 0x1A225CEB ∷ 0x8B277743 ∷ 0x2E66E53D ∷ 0xC448254E ∷ 0x6109B730 ∷ 0x15F9D359
    ∷ 0xB0B84127 ∷ 0x5A968154 ∷ 0xFFD7132A ∷ 0xB3764986 ∷ 0x1637DBF8 ∷ 0xFC191B8B ∷ 0x595889F5
    ∷ 0x2DA8ED9C ∷ 0x88E97FE2 ∷ 0x62C7BF91 ∷ 0xC7862DEF ∷ 0xFB850AC9 ∷ 0x5EC498B7 ∷ 0xB4EA58C4
    ∷ 0x11ABCABA ∷ 0x655BAED3 ∷ 0xC01A3CAD ∷ 0x2A34FCDE ∷ 0x8F756EA0 ∷ 0xC3D4340C ∷ 0x6695A672
    ∷ 0x8CBB6601 ∷ 0x29FAF47F ∷ 0x5D0A9016 ∷ 0xF84B0268 ∷ 0x1265C21B ∷ 0xB7245065 ∷ 0x6A638C57
    ∷ 0xCF221E29 ∷ 0x250CDE5A ∷ 0x804D4C24 ∷ 0xF4BD284D ∷ 0x51FCBA33 ∷ 0xBBD27A40 ∷ 0x1E93E83E
    ∷ 0x5232B292 ∷ 0xF77320EC ∷ 0x1D5DE09F ∷ 0xB81C72E1 ∷ 0xCCEC1688 ∷ 0x69AD84F6 ∷ 0x83834485
    ∷ 0x26C2D6FB ∷ 0x1AC1F1DD ∷ 0xBF8063A3 ∷ 0x55AEA3D0 ∷ 0xF0EF31AE ∷ 0x841F55C7 ∷ 0x215EC7B9
    ∷ 0xCB7007CA ∷ 0x6E3195B4 ∷ 0x2290CF18 ∷ 0x87D15D66 ∷ 0x6DFF9D15 ∷ 0xC8BE0F6B ∷ 0xBC4E6B02
    ∷ 0x190FF97C ∷ 0xF321390F ∷ 0x5660AB71 ∷ 0x4C42F79A ∷ 0xE90365E4 ∷ 0x032DA597 ∷ 0xA66C37E9
    ∷ 0xD29C5380 ∷ 0x77DDC1FE ∷ 0x9DF3018D ∷ 0x38B293F3 ∷ 0x7413C95F ∷ 0xD1525B21 ∷ 0x3B7C9B52
    ∷ 0x9E3D092C ∷ 0xEACD6D45 ∷ 0x4F8CFF3B ∷ 0xA5A23F48 ∷ 0x00E3AD36 ∷ 0x3CE08A10 ∷ 0x99A1186E
    ∷ 0x738FD81D ∷ 0xD6CE4A63 ∷ 0xA23E2E0A ∷ 0x077FBC74 ∷ 0xED517C07 ∷ 0x4810EE79 ∷ 0x04B1B4D5
    ∷ 0xA1F026AB ∷ 0x4BDEE6D8 ∷ 0xEE9F74A6 ∷ 0x9A6F10CF ∷ 0x3F2E82B1 ∷ 0xD50042C2 ∷ 0x7041D0BC
    ∷ 0xAD060C8E ∷ 0x08479EF0 ∷ 0xE2695E83 ∷ 0x4728CCFD ∷ 0x33D8A894 ∷ 0x96993AEA ∷ 0x7CB7FA99
    ∷ 0xD9F668E7 ∷ 0x9557324B ∷ 0x3016A035 ∷ 0xDA386046 ∷ 0x7F79F238 ∷ 0x0B899651 ∷ 0xAEC8042F
    ∷ 0x44E6C45C ∷ 0xE1A75622 ∷ 0xDDA47104 ∷ 0x78E5E37A ∷ 0x92CB2309 ∷ 0x378AB177 ∷ 0x437AD51E
    ∷ 0xE63B4760 ∷ 0x0C158713 ∷ 0xA954156D ∷ 0xE5F54FC1 ∷ 0x40B4DDBF ∷ 0xAA9A1DCC ∷ 0x0FDB8FB2
    ∷ 0x7B2BEBDB ∷ 0xDE6A79A5 ∷ 0x3444B9D6 ∷ 0x91052BA8 ∷ []

pub table_2-eq-rows : table_2 ≡ rows 256 0 (crc_bits 24)
unfolding table_2 rows crc_bits
table_2-eq-rows = refl
