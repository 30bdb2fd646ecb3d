-- ===== src/Dsmcc/Dii/Encode.antt =====
-- src/dsm-cc/dii.c: what is written of a DII is read back.
use demuxfs.Prelude.{
  ℕ, ◌+◌, ◌^◌, ◌≤◌, ◌<◌, ◌≡◌, refl, ap, Option, none, some, false, List, ◌∷◌, ◌++◌, length, ok,
  arith, All, ◌==◌, drop, ℤ, to_int, ◌%◌, ◌-◌,
}
use demuxfs.Cursor.{Cursor, cursor, Parse}
use demuxfs.Cursor.Laws.{
  be16, be32, u8_lem, u16-be16, u32-be32, bytes_lem, and_then, same_place, write_all, size_all,
  ReadsBack, repeat-write_all, drop-append_self,
}
use demuxfs.Cursor.Forward.{
  Forward, left_over, reads_bind, stays, repeat-Forward, bytes-Forward, u8-Forward, u16-Forward,
  u32-Forward,
}
use demuxfs.Biop.Info.{ModuleInfo, biop_parse_module_tap, biop_parse_module_info}
use demuxfs.Biop.Encode.Modules.{
  IsModuleInfo, write_module_info, size_module_info, biop_parse_module_info-write,
}
use demuxfs.Dsmcc.Compatibility.{CompatibilityDescriptor, dsmcc_parse_compatibility_descriptors}
use demuxfs.Dsmcc.Dii.{
  DiiModule, DiiTable, ahead, compatibility, module_info_of, parse_module, dii_fields,
}

-- Information of as many bytes as announced; none for no bytes.
pub data IsInfo : ℕ → Option ModuleInfo → Type 0 where
  no_info : (n : ℕ) → n ≡ 0 → IsInfo n none
  info : (n : ℕ) (m : ModuleInfo) → IsModuleInfo m → size_module_info m ≡ n → IsInfo n (some m)

abbrev pub write_info : Option ModuleInfo → List ℕ → List ℕ
write_info none s = s
write_info (some m) s = write_module_info m s

tap-Forward : Forward biop_parse_module_tap
unfolding biop_parse_module_tap
tap-Forward = reads_bind _ _ u16-Forward (λ _.
    reads_bind _ _ u16-Forward
      (λ _. reads_bind _ _ u16-Forward (λ _. reads_bind _ _ u8-Forward (λ _. stays))))

info-Forward : Forward biop_parse_module_info
unfolding biop_parse_module_info
info-Forward = reads_bind _ _ u32-Forward (λ _. reads_bind _ _ u32-Forward (λ _.
    reads_bind _ _ u32-Forward (λ _. reads_bind _ _ u8-Forward (λ n.
      reads_bind _ _ (repeat-Forward n _ tap-Forward)
        (λ _. reads_bind _ _ u8-Forward (λ k. reads_bind _ _ (bytes-Forward k) (λ _. stays)))))))

looked_ahead {ℓ} :
    {A : Type ℓ} (p : Parse A) (c c' : Cursor) (x : A) → p c ≡ ok (x, c') → ahead p c ≡ ok (x, c)
looked_ahead p c c' x e = rw e refl

module_info_of-write :
    (n : ℕ) (o : Option ModuleInfo) (s : List ℕ) (j : ℕ)
    → IsInfo n o
    → module_info_of n (cursor (write_info o s) j) ≡ ok (o, cursor s (j + n))
unfolding module_info_of
module_info_of-write n _ s j (no_info _ e) = rw e (same_place none s (omega arith))
module_info_of-write n _ s j (info _ m v e) =
    let test : (n == 0) ≡ false = ground (arith, e) in
    let read = biop_parse_module_info-write m s j v in
    let behind : drop n (write_module_info m s) ≡ s =
      rw (← e)
        (left_over biop_parse_module_info m (write_module_info m s) s j _ info-Forward read) in
    rw test (
      and_then _ _ (looked_ahead biop_parse_module_info (cursor (write_module_info m s) j) _ m read)
        (ap (λ l. ok (some m, cursor l (j + n))) behind))

pub record IsModule (m : DiiModule) : Type 0 where
  pub module_id : m.module_id < 2 ^ 16
  pub module_size : m.module_size < 2 ^ 32
  pub module_info : IsInfo m.module_info_length m.module_info

abbrev pub write_module : DiiModule → List ℕ → List ℕ
write_module m s =
    be16 m.module_id
    ++ (be32 m.module_size
        ++ (m.module_version ∷ m.module_info_length ∷ write_info m.module_info s))

abbrev pub size_module : DiiModule → ℕ
size_module m = 8 + m.module_info_length

parse_module-write : ReadsBack IsModule parse_module write_module size_module
unfolding parse_module
parse_module-write m s j v = and_then _ _ (u16-be16 m.module_id _ _ v.module_id) (
    and_then _ _ (u32-be32 m.module_size _ _ v.module_size) (
      and_then _ _ (u8_lem _ _ _) (
        and_then _ _ (u8_lem _ _ _) (
          and_then _ _ (module_info_of-write m.module_info_length m.module_info s _ v.module_info)
            (same_place m s (omega arith))))))

-- Compatibility descriptors that take the bytes `descriptors`.
abbrev pub Describes : ℤ → List ℕ → CompatibilityDescriptor → Type 0
Describes left descriptors d =
    (s : List ℕ)
    → dsmcc_parse_compatibility_descriptors left (descriptors ++ s) ≡ ok (d, length descriptors)

pub record IsDii (left : ℤ) (descriptors : List ℕ) (t : DiiTable) : Type 0 where
  pub download_id : t.download_id < 2 ^ 32
  pub block_size : t.block_size < 2 ^ 16
  pub some_block : 1 ≤ t.block_size
  pub t_c_download_window : t.t_c_download_window < 2 ^ 32
  pub t_c_download_scenario : t.t_c_download_scenario < 2 ^ 32
  pub compatibility_descriptor : Describes left descriptors t.compatibility_descriptor
  pub number : t.number_of_modules < 2 ^ 16
  pub count : length t.modules ≡ t.number_of_modules
  pub modules : All IsModule t.modules
  pub private_data_length : t.private_data_length < 2 ^ 16
  pub private_data : length t.private_data_bytes ≡ t.private_data_length

abbrev pub write_dii : List ℕ → DiiTable → List ℕ → List ℕ
write_dii descriptors t s =
    be32 t.download_id
    ++ (be16 t.block_size
        ++ (t.window_size
            ∷ t.ack_period
            ∷ (be32 t.t_c_download_window
                ++ (be32 t.t_c_download_scenario
                    ++ (descriptors
                        ++ (be16 t.number_of_modules
                            ++ write_all write_module t.modules
                                (be16 t.private_data_length ++ (t.private_data_bytes ++ s))))))))

compatibility-write :
    (left : ℤ) (descriptors : List ℕ) (d : CompatibilityDescriptor) (s : List ℕ) (j : ℕ)
    → Describes left descriptors d
    → compatibility left (cursor (descriptors ++ s) j) ≡ ok (d, cursor s (j + length descriptors))
unfolding compatibility
compatibility-write left descriptors d s j h = rw (h s) (rw (drop-append_self descriptors s) refl)

-- What is written behind the message header of a DII is read back, with its modules, the information of each
-- of them and the private data, when its block size is not 0, its fields fit their widths and its
-- compatibility descriptors are read in their length.
pub dii_fields-write :
    (payload_len j : ℕ) (descriptors : List ℕ) (t : DiiTable) (s : List ℕ)
    → IsDii (to_int (payload_len % 2 ^ 32 + 2 ^ 32 - (j + 16) % 2 ^ 32)) descriptors t
    → dii_fields payload_len (cursor (write_dii descriptors t s) j)
      ≡ ok (
        some t,
        cursor s (
            j + (20 + length descriptors + size_all size_module t.modules + t.private_data_length)),
      )
unfolding dii_fields
dii_fields-write payload_len j descriptors t s v =
    let test : (t.block_size == 0) ≡ false = ground (arith, v.some_block) in
    let here : j + 4 + 2 + 1 + 1 + 4 + 4 ≡ j + 16 = omega arith in
    and_then _ _ (u32-be32 t.download_id _ _ v.download_id) (
      and_then _ _ (u16-be16 t.block_size _ _ v.block_size) (
        and_then _ _ (u8_lem _ _ _) (
          and_then _ _ (u8_lem _ _ _) (
            and_then _ _ (u32-be32 t.t_c_download_window _ _ v.t_c_download_window) (
              and_then _ _ (u32-be32 t.t_c_download_scenario _ _ v.t_c_download_scenario) (
                rw (test, here)
                  (and_then _ _
                    (compatibility-write _ descriptors t.compatibility_descriptor _ (j + 16)
                      v.compatibility_descriptor)
                    (and_then _ _ (u16-be16 t.number_of_modules _ _ v.number) (
                      and_then _ _
                        (repeat-write_all IsModule parse_module write_module size_module
                          parse_module-write t.number_of_modules t.modules _ _ v.count v.modules)
                        (and_then _ _ (u16-be16 t.private_data_length _ _ v.private_data_length) (
                          and_then _ _
                            (bytes_lem t.private_data_length t.private_data_bytes s _
                              v.private_data)
                            (same_place (some t) s (omega arith)))))))))))))
