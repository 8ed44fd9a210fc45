-- ===== src/NineP/Dirent.antt =====
-- `packDirent` and `direntSize` of runtime/ninep/protocol.ts.
use nix_wasm.Prelude.{ℕ, ◌+◌, ◌%◌, ◌^◌, List, ◌++◌, ◌≡◌, ◌∙◌, ap, arith, length}
use nix_wasm.Prelude.Bytes.{le_bytes}
use nix_wasm.Text.{Str, utf8_encode}
use nix_wasm.NineP.Writer
use nix_wasm.NineP.Writer.{Qid, Put, ◌>>◌, new_writer, out}
use nix_wasm.NineP.Writer.Laws.{
  Emits, Emits->>, u8-Emits, u16-Emits, u32-Emits, u64-Emits, raw-Emits, new_writer-IsValid,
  out-new_writer,
}

pub record Dirent : Type 0 where
  pub qid : Qid
  pub offset : ℕ
  pub dtype : ℕ
  pub name : Str

write_dirent : Dirent → Put
write_dirent d = do Writer.qid d.qid; Writer.u64 d.offset; Writer.u8 d.dtype; Writer.str d.name

pub pack_dirent : Dirent → List ℕ
unfolding write_dirent
pack_dirent d = out (write_dirent d new_writer)

pub dirent_size : Str → ℕ
dirent_size name = 13 + 8 + 1 + 2 + length (utf8_encode name)

abbrev qid_bytes : Qid → List ℕ
qid_bytes q =
    le_bytes 1 (q.qtype % 2 ^ 8)
    ++ (le_bytes 4 (q.version % 2 ^ 32) ++ le_bytes 8 (q.path % 2 ^ 64))

-- qid[13] offset[8] type[1] name[s]
abbrev pub dirent_bytes : Dirent → List ℕ
dirent_bytes d =
    qid_bytes d.qid
    ++ (le_bytes 8 (d.offset % 2 ^ 64)
        ++ (le_bytes 1 (d.dtype % 2 ^ 8)
            ++ (le_bytes 2 (length (utf8_encode d.name) % 2 ^ 16) ++ utf8_encode d.name)))

write_dirent-Emits : (d : Dirent) → Emits (write_dirent d) (dirent_bytes d)
unfolding write_dirent Writer.qid Writer.str
write_dirent-Emits d =
    Emits->> _ _ _ _
      (Emits->> _ _ _ _ (u8-Emits d.qid.qtype)
        (Emits->> _ _ _ _ (u32-Emits d.qid.version) (u64-Emits d.qid.path)))
      (Emits->> _ _ _ _ (u64-Emits d.offset) (
        Emits->> _ _ _ _ (u8-Emits d.dtype) (
          Emits->> _ _ _ _ (u16-Emits (length (utf8_encode d.name)))
            (raw-Emits (utf8_encode d.name)))))

pub pack_dirent-eq-bytes : (d : Dirent) → pack_dirent d ≡ dirent_bytes d
unfolding pack_dirent
pack_dirent-eq-bytes d =
    (write_dirent-Emits d).appends new_writer new_writer-IsValid
    ∙ ap (λ t. t ++ dirent_bytes d) out-new_writer

-- The size that `direntSize` computes from the name alone is the length of the packed entry.
pub length-pack_dirent : (d : Dirent) → length (pack_dirent d) ≡ dirent_size d.name
unfolding dirent_size
length-pack_dirent d = rw pack_dirent-eq-bytes (omega arith)
