-- ===== src/Crc/Tables/Table7.antt =====
-- Row 7 of `crc32c_tables` in tools/hash.c: the register after 64 steps from each byte.
use pkt_sender.Prelude.{ℕ, ◌≡◌, refl, List, [], ◌∷◌}
use pkt_sender.Crc.Reference.{crc_bits}
use pkt_sender.Crc.Tables.Rows.{rows}

unfoldable pub table_7 : List ℕ
table_7 =
    0x00000000 ∷ 0x493C7D27 ∷ 0x9278FA4E ∷ 0xDB448769 ∷ 0x211D826D ∷ 0x6821FF4A ∷ 0xB3657823
    ∷ 0xFA590504 ∷ 0x423B04DA ∷ 0x0B0779FD ∷ 0xD043FE94 ∷ 0x997F83B3 ∷ 0x632686B7 ∷ 0x2A1AFB90
    ∷ 0xF15E7CF9 ∷ 0xB86201DE ∷ 0x847609B4 ∷ 0xCD4A7493 ∷ 0x160EF3FA ∷ 0x5F328EDD ∷ 0xA56B8BD9
    ∷ 0xEC57F6FE ∷ 0x37137197 ∷ 0x7E2F0CB0 ∷ 0xC64D0D6E ∷ 0x8F717049 ∷ 0x5435F720 ∷ 0x1D098A07
    ∷ 0xE7508F03 ∷ 0xAE6CF224 ∷ 0x7528754D ∷ 0x3C14086A ∷ 0x0D006599 ∷ 0x443C18BE ∷ 0x9F789FD7
    ∷ 0xD644E2F0 ∷ 0x2C1DE7F4 ∷ 0x65219AD3 ∷ 0xBE651DBA ∷ 0xF759609D ∷ 0x4F3B6143 ∷ 0x06071C64
    ∷ 0xDD439B0D ∷ 0x947FE62A ∷ 0x6E26E32E ∷ 0x271A9E09 ∷ 0xFC5E1960 ∷ 0xB5626447 ∷ 0x89766C2D
    ∷ 0xC04A110A ∷ 0x1B0E9663 ∷ 0x5232EB44 ∷ 0xA86BEE40 ∷ 0xE1579367 ∷ 0x3A13140E ∷ 0x732F6929
    ∷ 0xCB4D68F7 ∷ 0x827115D0 ∷ 0x593592B9 ∷ 0x1009EF9E ∷ 0xEA50EA9A ∷ 0xA36C97BD ∷ 0x782810D4
    ∷ 0x31146DF3 ∷ 0x1A00CB32 ∷ 0x533CB615 ∷ 0x8878317C ∷ 0xC1444C5B ∷ 0x3B1D495F ∷ 0x72213478
    ∷ 0xA965B311 ∷ 0xE059CE36 ∷ 0x583BCFE8 ∷ 0x1107B2CF ∷ 0xCA4335A6 ∷ 0x837F4881 ∷ 0x79264D85
    ∷ 0x301A30A2 ∷ 0xEB5EB7CB ∷ 0xA262CAEC ∷ 0x9E76C286 ∷ 0xD74ABFA1 ∷ 0x0C0E38C8 ∷ 0x453245EF
    ∷ 0xBF6B40EB ∷ 0xF6573DCC ∷ 0x2D13BAA5 ∷ 0x642FC782 ∷ 0xDC4DC65C ∷ 0x9571BB7B ∷ 0x4E353C12
    ∷ 0x07094135 ∷ 0xFD504431 ∷ 0xB46C3916 ∷ 0x6F28BE7F ∷ 0x2614C358 ∷ 0x1700AEAB ∷ 0x5E3CD38C
    ∷ 0x857854E5 ∷ 0xCC4429C2 ∷ 0x361D2CC6 ∷ 0x7F2151E1 ∷ 0xA465D688 ∷ 0xED59ABAF ∷ 0x553BAA71
    ∷ 0x1C07D756 ∷ 0xC743503F ∷ 0x8E7F2D18 ∷ 0x7426281C ∷ 0x3D1A553B ∷ 0xE65ED252 ∷ 0xAF62AF75
    ∷ 0x9376A71F ∷ 0xDA4ADA38 ∷ 0x010E5D51 ∷ 0x48322076 ∷ 0xB26B2572 ∷ 0xFB575855 ∷ 0x2013DF3C
    ∷ 0x692FA21B ∷ 0xD14DA3C5 ∷ 0x9871DEE2 ∷ 0x4335598B ∷ 0x0A0924AC ∷ 0xF05021A8 ∷ 0xB96C5C8F
    ∷ 0x6228DBE6 ∷ 0x2B14A6C1 ∷ 0x34019664 ∷ 0x7D3DEB43 ∷ 0xA6796C2A ∷ 0xEF45110D ∷ 0x151C1409
    ∷ 0x5C20692E ∷ 0x8764EE47 ∷ 0xCE589360 ∷ 0x763A92BE ∷ 0x3F06EF99 ∷ 0xE44268F0 ∷ 0xAD7E15D7
    ∷ 0x572710D3 ∷ 0x1E1B6DF4 ∷ 0xC55FEA9D ∷ 0x8C6397BA ∷ 0xB0779FD0 ∷ 0xF94BE2F7 ∷ 0x220F659E
    ∷ 0x6B3318B9 ∷ 0x916A1DBD ∷ 0xD856609A ∷ 0x0312E7F3 ∷ 0x4A2E9AD4 ∷ 0xF24C9B0A ∷ 0xBB70E62D
    ∷ 0x60346144 ∷ 0x29081C63 ∷ 0xD3511967 ∷ 0x9A6D6440 ∷ 0x4129E329 ∷ 0x08159E0E ∷ 0x3901F3FD
    ∷ 0x703D8EDA ∷ 0xAB7909B3 ∷ 0xE2457494 ∷ 0x181C7190 ∷ 0x51200CB7 ∷ 0x8A648BDE ∷ 0xC358F6F9
    ∷ 0x7B3AF727 ∷ 0x32068A00 ∷ 0xE9420D69 ∷ 0xA07E704E ∷ 0x5A27754A ∷ 0x131B086D ∷ 0xC85F8F04
    ∷ 0x8163F223 ∷ 0xBD77FA49 ∷ 0xF44B876E ∷ 0x2F0F0007 ∷ 0x66337D20 ∷ 0x9C6A7824 ∷ 0xD5560503
    ∷ 0x0E12826A ∷ 0x472EFF4D ∷ 0xFF4CFE93 ∷ 0xB67083B4 ∷ 0x6D3404DD ∷ 0x240879FA ∷ 0xDE517CFE
    ∷ 0x976D01D9 ∷ 0x4C2986B0 ∷ 0x0515FB97 ∷ 0x2E015D56 ∷ 0x673D2071 ∷ 0xBC79A718 ∷ 0xF545DA3F
    ∷ 0x0F1CDF3B ∷ 0x4620A21C ∷ 0x9D642575 ∷ 0xD4585852 ∷ 0x6C3A598C ∷ 0x250624AB ∷ 0xFE42A3C2
    ∷ 0xB77EDEE5 ∷ 0x4D27DBE1 ∷ 0x041BA6C6 ∷ 0xDF5F21AF ∷ 0x96635C88 ∷ 0xAA7754E2 ∷ 0xE34B29C5
    ∷ 0x380FAEAC ∷ 0x7133D38B ∷ 0x8B6AD68F ∷ 0xC256ABA8 ∷ 0x19122CC1 ∷ 0x502E51E6 ∷ 0xE84C5038
    ∷ 0xA1702D1F ∷ 0x7A34AA76 ∷ 0x3308D751 ∷ 0xC951D255 ∷ 0x806DAF72 ∷ 0x5B29281B ∷ 0x1215553C
    ∷ 0x230138CF ∷ 0x6A3D45E8 ∷ 0xB179C281 ∷ 0xF845BFA6 ∷ 0x021CBAA2 ∷ 0x4B20C785 ∷ 0x906440EC
    ∷ 0xD9583DCB ∷ 0x613A3C15 ∷ 0x28064132 ∷ 0xF342C65B ∷ 0xBA7EBB7C ∷ 0x4027BE78 ∷ 0x091BC35F
    ∷ 0xD25F4436 ∷ 0x9B633911 ∷ 0xA777317B ∷ 0xEE4B4C5C ∷ 0x350FCB35 ∷ 0x7C33B612 ∷ 0x866AB316
    ∷ 0xCF56CE31 ∷ 0x14124958 ∷ 0x5D2E347F ∷ 0xE54C35A1 ∷ 0xAC704886 ∷ 0x7734CFEF ∷ 0x3E08B2C8
    ∷ 0xC451B7CC ∷ 0x8D6DCAEB ∷ 0x56294D82 ∷ 0x1F1530A5 ∷ []

pub table_7-eq-rows : table_7 ≡ rows 256 0 (crc_bits 64)
unfolding table_7 rows crc_bits
table_7-eq-rows = refl
