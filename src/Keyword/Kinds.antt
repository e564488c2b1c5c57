-- ===== src/Keyword/Kinds.antt =====
-- The keywords of parser/src/keyword.rs, their strength and their syntax.
pub data Strength : Type 0 where
  strong weak : Strength

pub data Syntax : Type 0 where
  nullary named_unary named_unary_defined_or list_op list_op_indirect : Syntax
  list_op_no_call_form block_list_op loop_exit operator quote statement special : Syntax

-- `Keyword`: a name between underscores is `dunder`, a phase block's `phase`, and a word that the
-- notation reserves has `word` at its end.
pub data Keyword : Type 0 where
  dunder_file dunder_line dunder_package dunder_class dunder_data dunder_end dunder_sub adjust_phase
        autoload_phase begin_phase :
      Keyword
  unitcheck_phase destroy_phase end_phase init_phase check_phase abs accept alarm all and : Keyword
  any atan2 bind binmode bless break caller catch chdir chmod : Keyword
  chomp chop chown chr chroot class close closedir cmp connect : Keyword
  continue cos crypt dbmclose dbmopen default defer defined delete die : Keyword
  do_word dump each else_word elsif elseif endgrent endhostent endnetent endprotoent : Keyword
  endpwent endservent eof eq eval evalbytes exec exists_word exit exp : Keyword
  fc fcntl field fileno finally flock for foreach fork format : Keyword
  formline ge getc getgrent getgrgid getgrnam gethostbyaddr gethostbyname gethostent getlogin :
      Keyword
  getnetbyaddr getnetbyname getnetent getpeername getpgrp getppid getpriority getprotobyname
        getprotobynumber getprotoent :
      Keyword
  getpwent getpwnam getpwuid getservbyname getservbyport getservent getsockname getsockopt given
        glob :
      Keyword
  gmtime goto grep gt hex if_word index int ioctl isa : Keyword
  join keys kill last_word lc lcfirst le length link listen : Keyword
  local localtime lock log lstat lt m map_word method mkdir : Keyword
  msgctl msgget msgrcv msgsnd my ne next no not_word oct : Keyword
  open_word opendir or ord our pack package_word pipe pop pos : Keyword
  print_word printf prototype push q qq qr quotemeta qw qx : Keyword
  rand read readdir readline readlink readpipe recv redo ref rename : Keyword
  require reset return_word reverse rewinddir rindex rmdir s say scalar : Keyword
  seek seekdir select semctl semget semop send setgrent sethostent setnetent : Keyword
  setpgrp setpriority setprotoent setpwent setservent setsockopt shift shmctl shmget shmread :
      Keyword
  shmwrite shutdown sin sleep socket socketpair sort splice split sprintf : Keyword
  sqrt srand stat state study sub_word substr symlink syscall sysopen : Keyword
  sysread sysseek system syswrite tell telldir tie tied time times : Keyword
  tr try truncate uc ucfirst umask undef unless unlink unpack : Keyword
  unshift untie until use_word utime values vec wait waitpid wantarray : Keyword
  warn when while write x xor y : Keyword
