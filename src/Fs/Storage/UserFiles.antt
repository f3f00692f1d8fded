-- ===== src/Fs/Storage/UserFiles.antt =====
-- client/fs/storage.go: the account's data, and copies of the user's files.
use ipfs_share.Prelude.{[], ◌∷◌, ◌++◌, Bytes, if◌then◌else◌, ◌==◌}
use ipfs_share.Fs.Disk.{Action, ◌>>◌, pure, read_file, create_and_write_file, copy_file}
use ipfs_share.Fs.Disk.Directory.{clean}
use ipfs_share.Fs.Storage.{Storage, slash}

-- "account.dat".
abbrev account_file : Bytes
account_file = b'a' ∷ b'c' ∷ b'c' ∷ b'o' ∷ b'u' ∷ b'n' ∷ b't' ∷ b'.' ∷ b'd' ∷ b'a' ∷ b't' ∷ []

abbrev pub account_path : Storage → Bytes
account_path s = s.user_data_path ++ account_file

unfoldable pub save_account_data : Bytes → Storage → Action (Unit {0})
save_account_data contents s = create_and_write_file (account_path s) contents

unfoldable pub load_account_data : Storage → Action Bytes
load_account_data s = read_file (account_path s)

-- `path.Base` of a path without a trailing slash: what stands behind the last slash. The base of an
-- empty path is ".".
behind_slash : Bytes → Bytes → Bytes
behind_slash seen [] = seen
behind_slash seen (c ∷ cs) = behind_slash (if c == b'/' then [] else seen ++ c ∷ []) cs

unfoldable pub base : Bytes → Bytes
unfolding behind_slash
base [] = b'.' ∷ []
base (c ∷ cs) = behind_slash [] (c ∷ cs)

-- `CopyFileIntoMyFiles`, with the path of the copy.
pub copy_file_into_my_files : Bytes → Storage → Action Bytes
copy_file_into_my_files file_path s = do
  copy_file file_path (clean (s.my_files_path ++ (slash ++ base file_path)))
  pure (s.my_files_path ++ (slash ++ base file_path))

-- `CopyFileIntoGroupFiles`, without the making of the directory.
pub copy_file_into_group_files : Bytes → Bytes → Storage → Action (Unit {0})
copy_file_into_group_files file_path group_name s =
    copy_file file_path
      (clean (s.file_root_path ++ (slash ++ (group_name ++ (slash ++ base file_path)))))
