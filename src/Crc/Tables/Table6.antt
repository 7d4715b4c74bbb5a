-- ===== src/Crc/Tables/Table6.antt =====
-- Row 6 of `crc32c_tables` in tools/hash.c: the register after 56 steps from each byte.
use pkt_sender.Prelude.{ℕ, ◌≡◌, refl, List, [], ◌∷◌}
use pkt_sender.Crc.Reference.{crc_bits}
use pkt_sender.Crc.Tables.Rows.{rows}

unfoldable pub table_6 : List ℕ
table_6 =
    0x00000000 ∷ 0x68032CC8 ∷ 0xD0065990 ∷ 0xB8057558 ∷ 0xA5E0C5D1 ∷ 0xCDE3E919 ∷ 0x75E69C41
    ∷ 0x1DE5B089 ∷ 0x4E2DFD53 ∷ 0x262ED19B ∷ 0x9E2BA4C3 ∷ 0xF628880B ∷ 0xEBCD3882 ∷ 0x83CE144A
    ∷ 0x3BCB6112 ∷ 0x53C84DDA ∷ 0x9C5BFAA6 ∷ 0xF458D66E ∷ 0x4C5DA336 ∷ 0x245E8FFE ∷ 0x39BB3F77
    ∷ 0x51B813BF ∷ 0xE9BD66E7 ∷ 0x81BE4A2F ∷ 0xD27607F5 ∷ 0xBA752B3D ∷ 0x02705E65 ∷ 0x6A7372AD
    ∷ 0x7796C224 ∷ 0x1F95EEEC ∷ 0xA7909BB4 ∷ 0xCF93B77C ∷ 0x3D5B83BD ∷ 0x5558AF75 ∷ 0xED5DDA2D
    ∷ 0x855EF6E5 ∷ 0x98BB466C ∷ 0xF0B86AA4 ∷ 0x48BD1FFC ∷ 0x20BE3334 ∷ 0x73767EEE ∷ 0x1B755226
    ∷ 0xA370277E ∷ 0xCB730BB6 ∷ 0xD696BB3F ∷ 0xBE9597F7 ∷ 0x0690E2AF ∷ 0x6E93CE67 ∷ 0xA100791B
    ∷ 0xC90355D3 ∷ 0x7106208B ∷ 0x19050C43 ∷ 0x04E0BCCA ∷ 0x6CE39002 ∷ 0xD4E6E55A ∷ 0xBCE5C992
    ∷ 0xEF2D8448 ∷ 0x872EA880 ∷ 0x3F2BDDD8 ∷ 0x5728F110 ∷ 0x4ACD4199 ∷ 0x22CE6D51 ∷ 0x9ACB1809
    ∷ 0xF2C834C1 ∷ 0x7AB7077A ∷ 0x12B42BB2 ∷ 0xAAB15EEA ∷ 0xC2B27222 ∷ 0xDF57C2AB ∷ 0xB754EE63
    ∷ 0x0F519B3B ∷ 0x6752B7F3 ∷ 0x349AFA29 ∷ 0x5C99D6E1 ∷ 0xE49CA3B9 ∷ 0x8C9F8F71 ∷ 0x917A3FF8
    ∷ 0xF9791330 ∷ 0x417C6668 ∷ 0x297F4AA0 ∷ 0xE6ECFDDC ∷ 0x8EEFD114 ∷ 0x36EAA44C ∷ 0x5EE98884
    ∷ 0x430C380D ∷ 0x2B0F14C5 ∷ 0x930A619D ∷ 0xFB094D55 ∷ 0xA8C1008F ∷ 0xC0C22C47 ∷ 0x78C7591F
    ∷ 0x10C475D7 ∷ 0x0D21C55E ∷ 0x6522E996 ∷ 0xDD279CCE ∷ 0xB524B006 ∷ 0x47EC84C7 ∷ 0x2FEFA80F
    ∷ 0x97EADD57 ∷ 0xFFE9F19F ∷ 0xE20C4116 ∷ 0x8A0F6DDE ∷ 0x320A1886 ∷ 0x5A09344E ∷ 0x09C17994
    ∷ 0x61C2555C ∷ 0xD9C72004 ∷ 0xB1C40CCC ∷ 0xAC21BC45 ∷ 0xC422908D ∷ 0x7C27E5D5 ∷ 0x1424C91D
    ∷ 0xDBB77E61 ∷ 0xB3B452A9 ∷ 0x0BB127F1 ∷ 0x63B20B39 ∷ 0x7E57BBB0 ∷ 0x16549778 ∷ 0xAE51E220
    ∷ 0xC652CEE8 ∷ 0x959A8332 ∷ 0xFD99AFFA ∷ 0x459CDAA2 ∷ 0x2D9FF66A ∷ 0x307A46E3 ∷ 0x58796A2B
    ∷ 0xE07C1F73 ∷ 0x887F33BB ∷ 0xF56E0EF4 ∷ 0x9D6D223C ∷ 0x25685764 ∷ 0x4D6B7BAC ∷ 0x508ECB25
    ∷ 0x388DE7ED ∷ 0x808892B5 ∷ 0xE88BBE7D ∷ 0xBB43F3A7 ∷ 0xD340DF6F ∷ 0x6B45AA37 ∷ 0x034686FF
    ∷ 0x1EA33676 ∷ 0x76A01ABE ∷ 0xCEA56FE6 ∷ 0xA6A6432E ∷ 0x6935F452 ∷ 0x0136D89A ∷ 0xB933ADC2
    ∷ 0xD130810A ∷ 0xCCD53183 ∷ 0xA4D61D4B ∷ 0x1CD36813 ∷ 0x74D044DB ∷ 0x27180901 ∷ 0x4F1B25C9
    ∷ 0xF71E5091 ∷ 0x9F1D7C59 ∷ 0x82F8CCD0 ∷ 0xEAFBE018 ∷ 0x52FE9540 ∷ 0x3AFDB988 ∷ 0xC8358D49
    ∷ 0xA036A181 ∷ 0x1833D4D9 ∷ 0x7030F811 ∷ 0x6DD54898 ∷ 0x05D66450 ∷ 0xBDD31108 ∷ 0xD5D03DC0
    ∷ 0x8618701A ∷ 0xEE1B5CD2 ∷ 0x561E298A ∷ 0x3E1D0542 ∷ 0x23F8B5CB ∷ 0x4BFB9903 ∷ 0xF3FEEC5B
    ∷ 0x9BFDC093 ∷ 0x546E77EF ∷ 0x3C6D5B27 ∷ 0x84682E7F ∷ 0xEC6B02B7 ∷ 0xF18EB23E ∷ 0x998D9EF6
    ∷ 0x2188EBAE ∷ 0x498BC766 ∷ 0x1A438ABC ∷ 0x7240A674 ∷ 0xCA45D32C ∷ 0xA246FFE4 ∷ 0xBFA34F6D
    ∷ 0xD7A063A5 ∷ 0x6FA516FD ∷ 0x07A63A35 ∷ 0x8FD9098E ∷ 0xE7DA2546 ∷ 0x5FDF501E ∷ 0x37DC7CD6
    ∷ 0x2A39CC5F ∷ 0x423AE097 ∷ 0xFA3F95CF ∷ 0x923CB907 ∷ 0xC1F4F4DD ∷ 0xA9F7D815 ∷ 0x11F2AD4D
    ∷ 0x79F18185 ∷ 0x6414310C ∷ 0x0C171DC4 ∷ 0xB412689C ∷ 0xDC114454 ∷ 0x1382F328 ∷ 0x7B81DFE0
    ∷ 0xC384AAB8 ∷ 0xAB878670 ∷ 0xB66236F9 ∷ 0xDE611A31 ∷ 0x66646F69 ∷ 0x0E6743A1 ∷ 0x5DAF0E7B
    ∷ 0x35AC22B3 ∷ 0x8DA957EB ∷ 0xE5AA7B23 ∷ 0xF84FCBAA ∷ 0x904CE762 ∷ 0x2849923A ∷ 0x404ABEF2
    ∷ 0xB2828A33 ∷ 0xDA81A6FB ∷ 0x6284D3A3 ∷ 0x0A87FF6B ∷ 0x17624FE2 ∷ 0x7F61632A ∷ 0xC7641672
    ∷ 0xAF673ABA ∷ 0xFCAF7760 ∷ 0x94AC5BA8 ∷ 0x2CA92EF0 ∷ 0x44AA0238 ∷ 0x594FB2B1 ∷ 0x314C9E79
    ∷ 0x8949EB21 ∷ 0xE14AC7E9 ∷ 0x2ED97095 ∷ 0x46DA5C5D ∷ 0xFEDF2905 ∷ 0x96DC05CD ∷ 0x8B39B544
    ∷ 0xE33A998C ∷ 0x5B3FECD4 ∷ 0x333CC01C ∷ 0x60F48DC6 ∷ 0x08F7A10E ∷ 0xB0F2D456 ∷ 0xD8F1F89E
    ∷ 0xC5144817 ∷ 0xAD1764DF ∷ 0x15121187 ∷ 0x7D113D4F ∷ []

pub table_6-eq-rows : table_6 ≡ rows 256 0 (crc_bits 56)
unfolding table_6 rows crc_bits
table_6-eq-rows = refl
