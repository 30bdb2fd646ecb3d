-- ===== src/Biop/Encode/Modules.antt =====
-- src/dsm-cc/biop.c: module information is read back.
use demuxfs.Prelude.{ℕ, ◌+◌, ◌^◌, ◌<◌, ◌≡◌, ap, List, ◌∷◌, ◌++◌, length, ok, arith, All}
use demuxfs.Cursor.{cursor}
use demuxfs.Cursor.Laws.{
  be16, be32, u8_lem, u16-be16, u32-be32, bytes_lem, write_all, size_all, ReadsBack,
  repeat-write_all, and_then,
}
use demuxfs.Biop.Info.{ModuleTap, ModuleInfo, biop_parse_module_tap, biop_parse_module_info}

pub record IsModuleTap (t : ModuleTap) : Type 0 where
  pub tap_id : t.tap_id < 2 ^ 16
  pub tap_use : t.tap_use < 2 ^ 16
  pub association_tag : t.association_tag < 2 ^ 16

abbrev pub write_module_tap : ModuleTap → List ℕ → List ℕ
write_module_tap t s =
    be16 t.tap_id ++ (be16 t.tap_use ++ (be16 t.association_tag ++ (t.selector_length ∷ s)))

biop_parse_module_tap-write : ReadsBack IsModuleTap biop_parse_module_tap write_module_tap (λ t. 7)
unfolding biop_parse_module_tap
biop_parse_module_tap-write t s j v = and_then _ _ (u16-be16 t.tap_id _ j v.tap_id) (
    and_then _ _ (u16-be16 t.tap_use _ _ v.tap_use) (
      and_then _ _ (u16-be16 t.association_tag _ _ v.association_tag)
        (and_then _ _ (u8_lem _ _ _) (ap (λ k. ok (t, cursor s k)) (omega arith)))))

pub record IsModuleInfo (m : ModuleInfo) : Type 0 where
  pub module_timeout : m.module_timeout < 2 ^ 32
  pub block_timeout : m.block_timeout < 2 ^ 32
  pub min_block_time : m.min_block_time < 2 ^ 32
  pub count : length m.taps ≡ m.taps_count
  pub taps : All IsModuleTap m.taps
  pub user_info : length m.user_info ≡ m.user_info_length

abbrev pub write_module_info : ModuleInfo → List ℕ → List ℕ
write_module_info m s =
    be32 m.module_timeout
    ++ (be32 m.block_timeout
        ++ (be32 m.min_block_time
            ++ (m.taps_count
                ∷ write_all write_module_tap m.taps (m.user_info_length ∷ (m.user_info ++ s)))))

abbrev pub size_module_info : ModuleInfo → ℕ
size_module_info m = 14 + size_all (λ (t : ModuleTap). 7) m.taps + m.user_info_length

-- Parsing module information gives it back, with its taps and the user's bytes, and leaves what follows.
pub biop_parse_module_info-write :
    (m : ModuleInfo) (s : List ℕ) (j : ℕ)
    → IsModuleInfo m
    → biop_parse_module_info (cursor (write_module_info m s) j)
      ≡ ok (m, cursor s (j + size_module_info m))
unfolding biop_parse_module_info
biop_parse_module_info-write m s j v =
    and_then _ _ (u32-be32 m.module_timeout _ j v.module_timeout) (
      and_then _ _ (u32-be32 m.block_timeout _ _ v.block_timeout) (
        and_then _ _ (u32-be32 m.min_block_time _ _ v.min_block_time) (
          and_then _ _ (u8_lem _ _ _) (
            and_then _ _
              (repeat-write_all IsModuleTap biop_parse_module_tap write_module_tap (λ t. 7)
                biop_parse_module_tap-write m.taps_count m.taps _ _ v.count v.taps)
              (and_then _ _ (u8_lem _ _ _) (
                and_then _ _ (bytes_lem m.user_info_length m.user_info s _ v.user_info)
                  (ap (λ k. ok (m, cursor s k)) (omega arith))))))))
