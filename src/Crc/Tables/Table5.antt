-- ===== src/Crc/Tables/Table5.antt =====
-- Row 5 of `crc32c_tables` in tools/hash.c: the register after 48 steps from each byte.
use pkt_sender.Prelude.{ℕ, ◌≡◌, refl, List, [], ◌∷◌}
use pkt_sender.Crc.Reference.{crc_bits}
use pkt_sender.Crc.Tables.Rows.{rows}

unfoldable pub table_5 : List ℕ
table_5 =
    0x00000000 ∷ 0xEF306B19 ∷ 0xDB8CA0C3 ∷ 0x34BCCBDA ∷ 0xB2F53777 ∷ 0x5DC55C6E ∷ 0x697997B4
    ∷ 0x8649FCAD ∷ 0x6006181F ∷ 0x8F367306 ∷ 0xBB8AB8DC ∷ 0x54BAD3C5 ∷ 0xD2F32F68 ∷ 0x3DC34471
    ∷ 0x097F8FAB ∷ 0xE64FE4B2 ∷ 0xC00C303E ∷ 0x2F3C5B27 ∷ 0x1B8090FD ∷ 0xF4B0FBE4 ∷ 0x72F90749
    ∷ 0x9DC96C50 ∷ 0xA975A78A ∷ 0x4645CC93 ∷ 0xA00A2821 ∷ 0x4F3A4338 ∷ 0x7B8688E2 ∷ 0x94B6E3FB
    ∷ 0x12FF1F56 ∷ 0xFDCF744F ∷ 0xC973BF95 ∷ 0x2643D48C ∷ 0x85F4168D ∷ 0x6AC47D94 ∷ 0x5E78B64E
    ∷ 0xB148DD57 ∷ 0x370121FA ∷ 0xD8314AE3 ∷ 0xEC8D8139 ∷ 0x03BDEA20 ∷ 0xE5F20E92 ∷ 0x0AC2658B
    ∷ 0x3E7EAE51 ∷ 0xD14EC548 ∷ 0x570739E5 ∷ 0xB83752FC ∷ 0x8C8B9926 ∷ 0x63BBF23F ∷ 0x45F826B3
    ∷ 0xAAC84DAA ∷ 0x9E748670 ∷ 0x7144ED69 ∷ 0xF70D11C4 ∷ 0x183D7ADD ∷ 0x2C81B107 ∷ 0xC3B1DA1E
    ∷ 0x25FE3EAC ∷ 0xCACE55B5 ∷ 0xFE729E6F ∷ 0x1142F576 ∷ 0x970B09DB ∷ 0x783B62C2 ∷ 0x4C87A918
    ∷ 0xA3B7C201 ∷ 0x0E045BEB ∷ 0xE13430F2 ∷ 0xD588FB28 ∷ 0x3AB89031 ∷ 0xBCF16C9C ∷ 0x53C10785
    ∷ 0x677DCC5F ∷ 0x884DA746 ∷ 0x6E0243F4 ∷ 0x813228ED ∷ 0xB58EE337 ∷ 0x5ABE882E ∷ 0xDCF77483
    ∷ 0x33C71F9A ∷ 0x077BD440 ∷ 0xE84BBF59 ∷ 0xCE086BD5 ∷ 0x213800CC ∷ 0x1584CB16 ∷ 0xFAB4A00F
    ∷ 0x7CFD5CA2 ∷ 0x93CD37BB ∷ 0xA771FC61 ∷ 0x48419778 ∷ 0xAE0E73CA ∷ 0x413E18D3 ∷ 0x7582D309
    ∷ 0x9AB2B810 ∷ 0x1CFB44BD ∷ 0xF3CB2FA4 ∷ 0xC777E47E ∷ 0x28478F67 ∷ 0x8BF04D66 ∷ 0x64C0267F
    ∷ 0x507CEDA5 ∷ 0xBF4C86BC ∷ 0x39057A11 ∷ 0xD6351108 ∷ 0xE289DAD2 ∷ 0x0DB9B1CB ∷ 0xEBF65579
    ∷ 0x04C63E60 ∷ 0x307AF5BA ∷ 0xDF4A9EA3 ∷ 0x5903620E ∷ 0xB6330917 ∷ 0x828FC2CD ∷ 0x6DBFA9D4
    ∷ 0x4BFC7D58 ∷ 0xA4CC1641 ∷ 0x9070DD9B ∷ 0x7F40B682 ∷ 0xF9094A2F ∷ 0x16392136 ∷ 0x2285EAEC
    ∷ 0xCDB581F5 ∷ 0x2BFA6547 ∷ 0xC4CA0E5E ∷ 0xF076C584 ∷ 0x1F46AE9D ∷ 0x990F5230 ∷ 0x763F3929
    ∷ 0x4283F2F3 ∷ 0xADB399EA ∷ 0x1C08B7D6 ∷ 0xF338DCCF ∷ 0xC7841715 ∷ 0x28B47C0C ∷ 0xAEFD80A1
    ∷ 0x41CDEBB8 ∷ 0x75712062 ∷ 0x9A414B7B ∷ 0x7C0EAFC9 ∷ 0x933EC4D0 ∷ 0xA7820F0A ∷ 0x48B26413
    ∷ 0xCEFB98BE ∷ 0x21CBF3A7 ∷ 0x1577387D ∷ 0xFA475364 ∷ 0xDC0487E8 ∷ 0x3334ECF1 ∷ 0x0788272B
    ∷ 0xE8B84C32 ∷ 0x6EF1B09F ∷ 0x81C1DB86 ∷ 0xB57D105C ∷ 0x5A4D7B45 ∷ 0xBC029FF7 ∷ 0x5332F4EE
    ∷ 0x678E3F34 ∷ 0x88BE542D ∷ 0x0EF7A880 ∷ 0xE1C7C399 ∷ 0xD57B0843 ∷ 0x3A4B635A ∷ 0x99FCA15B
    ∷ 0x76CCCA42 ∷ 0x42700198 ∷ 0xAD406A81 ∷ 0x2B09962C ∷ 0xC439FD35 ∷ 0xF08536EF ∷ 0x1FB55DF6
    ∷ 0xF9FAB944 ∷ 0x16CAD25D ∷ 0x22761987 ∷ 0xCD46729E ∷ 0x4B0F8E33 ∷ 0xA43FE52A ∷ 0x90832EF0
    ∷ 0x7FB345E9 ∷ 0x59F09165 ∷ 0xB6C0FA7C ∷ 0x827C31A6 ∷ 0x6D4C5ABF ∷ 0xEB05A612 ∷ 0x0435CD0B
    ∷ 0x308906D1 ∷ 0xDFB96DC8 ∷ 0x39F6897A ∷ 0xD6C6E263 ∷ 0xE27A29B9 ∷ 0x0D4A42A0 ∷ 0x8B03BE0D
    ∷ 0x6433D514 ∷ 0x508F1ECE ∷ 0xBFBF75D7 ∷ 0x120CEC3D ∷ 0xFD3C8724 ∷ 0xC9804CFE ∷ 0x26B027E7
    ∷ 0xA0F9DB4A ∷ 0x4FC9B053 ∷ 0x7B757B89 ∷ 0x94451090 ∷ 0x720AF422 ∷ 0x9D3A9F3B ∷ 0xA98654E1
    ∷ 0x46B63FF8 ∷ 0xC0FFC355 ∷ 0x2FCFA84C ∷ 0x1B736396 ∷ 0xF443088F ∷ 0xD200DC03 ∷ 0x3D30B71A
    ∷ 0x098C7CC0 ∷ 0xE6BC17D9 ∷ 0x60F5EB74 ∷ 0x8FC5806D ∷ 0xBB794BB7 ∷ 0x544920AE ∷ 0xB206C41C
    ∷ 0x5D36AF05 ∷ 0x698A64DF ∷ 0x86BA0FC6 ∷ 0x00F3F36B ∷ 0xEFC39872 ∷ 0xDB7F53A8 ∷ 0x344F38B1
    ∷ 0x97F8FAB0 ∷ 0x78C891A9 ∷ 0x4C745A73 ∷ 0xA344316A ∷ 0x250DCDC7 ∷ 0xCA3DA6DE ∷ 0xFE816D04
    ∷ 0x11B1061D ∷ 0xF7FEE2AF ∷ 0x18CE89B6 ∷ 0x2C72426C ∷ 0xC3422975 ∷ 0x450BD5D8 ∷ 0xAA3BBEC1
    ∷ 0x9E87751B ∷ 0x71B71E02 ∷ 0x57F4CA8E ∷ 0xB8C4A197 ∷ 0x8C786A4D ∷ 0x63480154 ∷ 0xE501FDF9
    ∷ 0x0A3196E0 ∷ 0x3E8D5D3A ∷ 0xD1BD3623 ∷ 0x37F2D291 ∷ 0xD8C2B988 ∷ 0xEC7E7252 ∷ 0x034E194B
    ∷ 0x8507E5E6 ∷ 0x6A378EFF ∷ 0x5E8B4525 ∷ 0xB1BB2E3C ∷ []

pub table_5-eq-rows : table_5 ≡ rows 256 0 (crc_bits 48)
unfolding table_5 rows crc_bits
table_5-eq-rows = refl
