-- ===== src/Keyword/Lookup.antt =====
-- The lookups of parser/src/keyword.rs: the name map and the predicates.
use perloxide.Prelude.{
  String, Option, none, some, Bool, true, false, not, List, [], ◌∷◌, str_eq, match_arms,
}
use perloxide.Pragma.Features.{Features, contains}
use perloxide.Keyword.Kinds.{
  Keyword, Strength, strong, weak, Syntax, nullary, named_unary, named_unary_defined_or, list_op,
  list_op_indirect, list_op_no_call_form, quote, statement,
}
use perloxide.Keyword.Rows.{row}

-- The map `KEYWORDS`, entry by entry.
abbrev pub keyword_arms : List (String × Keyword)
keyword_arms =
    ("__FILE__", Keyword.dunder_file)
    ∷ ("__LINE__", Keyword.dunder_line)
    ∷ ("__PACKAGE__", Keyword.dunder_package)
    ∷ ("__CLASS__", Keyword.dunder_class)
    ∷ ("__DATA__", Keyword.dunder_data)
    ∷ ("__END__", Keyword.dunder_end)
    ∷ ("__SUB__", Keyword.dunder_sub)
    ∷ ("ADJUST", Keyword.adjust_phase)
    ∷ ("AUTOLOAD", Keyword.autoload_phase)
    ∷ ("BEGIN", Keyword.begin_phase)
    ∷ ("UNITCHECK", Keyword.unitcheck_phase)
    ∷ ("DESTROY", Keyword.destroy_phase)
    ∷ ("END", Keyword.end_phase)
    ∷ ("INIT", Keyword.init_phase)
    ∷ ("CHECK", Keyword.check_phase)
    ∷ ("abs", Keyword.abs)
    ∷ ("accept", Keyword.accept)
    ∷ ("alarm", Keyword.alarm)
    ∷ ("all", Keyword.all)
    ∷ ("and", Keyword.and)
    ∷ ("any", Keyword.any)
    ∷ ("atan2", Keyword.atan2)
    ∷ ("bind", Keyword.bind)
    ∷ ("binmode", Keyword.binmode)
    ∷ ("bless", Keyword.bless)
    ∷ ("break", Keyword.break)
    ∷ ("caller", Keyword.caller)
    ∷ ("catch", Keyword.catch)
    ∷ ("chdir", Keyword.chdir)
    ∷ ("chmod", Keyword.chmod)
    ∷ ("chomp", Keyword.chomp)
    ∷ ("chop", Keyword.chop)
    ∷ ("chown", Keyword.chown)
    ∷ ("chr", Keyword.chr)
    ∷ ("chroot", Keyword.chroot)
    ∷ ("class", Keyword.class)
    ∷ ("close", Keyword.close)
    ∷ ("closedir", Keyword.closedir)
    ∷ ("cmp", Keyword.cmp)
    ∷ ("connect", Keyword.connect)
    ∷ ("continue", Keyword.continue)
    ∷ ("cos", Keyword.cos)
    ∷ ("crypt", Keyword.crypt)
    ∷ ("dbmclose", Keyword.dbmclose)
    ∷ ("dbmopen", Keyword.dbmopen)
    ∷ ("default", Keyword.default)
    ∷ ("defer", Keyword.defer)
    ∷ ("defined", Keyword.defined)
    ∷ ("delete", Keyword.delete)
    ∷ ("die", Keyword.die)
    ∷ ("do", Keyword.do_word)
    ∷ ("dump", Keyword.dump)
    ∷ ("each", Keyword.each)
    ∷ ("else", Keyword.else_word)
    ∷ ("elsif", Keyword.elsif)
    ∷ ("elseif", Keyword.elseif)
    ∷ ("endgrent", Keyword.endgrent)
    ∷ ("endhostent", Keyword.endhostent)
    ∷ ("endnetent", Keyword.endnetent)
    ∷ ("endprotoent", Keyword.endprotoent)
    ∷ ("endpwent", Keyword.endpwent)
    ∷ ("endservent", Keyword.endservent)
    ∷ ("eof", Keyword.eof)
    ∷ ("eq", Keyword.eq)
    ∷ ("eval", Keyword.eval)
    ∷ ("evalbytes", Keyword.evalbytes)
    ∷ ("exec", Keyword.exec)
    ∷ ("exists", Keyword.exists_word)
    ∷ ("exit", Keyword.exit)
    ∷ ("exp", Keyword.exp)
    ∷ ("fc", Keyword.fc)
    ∷ ("fcntl", Keyword.fcntl)
    ∷ ("field", Keyword.field)
    ∷ ("fileno", Keyword.fileno)
    ∷ ("finally", Keyword.finally)
    ∷ ("flock", Keyword.flock)
    ∷ ("for", Keyword.for)
    ∷ ("foreach", Keyword.foreach)
    ∷ ("fork", Keyword.fork)
    ∷ ("format", Keyword.format)
    ∷ ("formline", Keyword.formline)
    ∷ ("ge", Keyword.ge)
    ∷ ("getc", Keyword.getc)
    ∷ ("getgrent", Keyword.getgrent)
    ∷ ("getgrgid", Keyword.getgrgid)
    ∷ ("getgrnam", Keyword.getgrnam)
    ∷ ("gethostbyaddr", Keyword.gethostbyaddr)
    ∷ ("gethostbyname", Keyword.gethostbyname)
    ∷ ("gethostent", Keyword.gethostent)
    ∷ ("getlogin", Keyword.getlogin)
    ∷ ("getnetbyaddr", Keyword.getnetbyaddr)
    ∷ ("getnetbyname", Keyword.getnetbyname)
    ∷ ("getnetent", Keyword.getnetent)
    ∷ ("getpeername", Keyword.getpeername)
    ∷ ("getpgrp", Keyword.getpgrp)
    ∷ ("getppid", Keyword.getppid)
    ∷ ("getpriority", Keyword.getpriority)
    ∷ ("getprotobyname", Keyword.getprotobyname)
    ∷ ("getprotobynumber", Keyword.getprotobynumber)
    ∷ ("getprotoent", Keyword.getprotoent)
    ∷ ("getpwent", Keyword.getpwent)
    ∷ ("getpwnam", Keyword.getpwnam)
    ∷ ("getpwuid", Keyword.getpwuid)
    ∷ ("getservbyname", Keyword.getservbyname)
    ∷ ("getservbyport", Keyword.getservbyport)
    ∷ ("getservent", Keyword.getservent)
    ∷ ("getsockname", Keyword.getsockname)
    ∷ ("getsockopt", Keyword.getsockopt)
    ∷ ("given", Keyword.given)
    ∷ ("glob", Keyword.glob)
    ∷ ("gmtime", Keyword.gmtime)
    ∷ ("goto", Keyword.goto)
    ∷ ("grep", Keyword.grep)
    ∷ ("gt", Keyword.gt)
    ∷ ("hex", Keyword.hex)
    ∷ ("if", Keyword.if_word)
    ∷ ("index", Keyword.index)
    ∷ ("int", Keyword.int)
    ∷ ("ioctl", Keyword.ioctl)
    ∷ ("isa", Keyword.isa)
    ∷ ("join", Keyword.join)
    ∷ ("keys", Keyword.keys)
    ∷ ("kill", Keyword.kill)
    ∷ ("last", Keyword.last_word)
    ∷ ("lc", Keyword.lc)
    ∷ ("lcfirst", Keyword.lcfirst)
    ∷ ("le", Keyword.le)
    ∷ ("length", Keyword.length)
    ∷ ("link", Keyword.link)
    ∷ ("listen", Keyword.listen)
    ∷ ("local", Keyword.local)
    ∷ ("localtime", Keyword.localtime)
    ∷ ("lock", Keyword.lock)
    ∷ ("log", Keyword.log)
    ∷ ("lstat", Keyword.lstat)
    ∷ ("lt", Keyword.lt)
    ∷ ("m", Keyword.m)
    ∷ ("map", Keyword.map_word)
    ∷ ("method", Keyword.method)
    ∷ ("mkdir", Keyword.mkdir)
    ∷ ("msgctl", Keyword.msgctl)
    ∷ ("msgget", Keyword.msgget)
    ∷ ("msgrcv", Keyword.msgrcv)
    ∷ ("msgsnd", Keyword.msgsnd)
    ∷ ("my", Keyword.my)
    ∷ ("ne", Keyword.ne)
    ∷ ("next", Keyword.next)
    ∷ ("no", Keyword.no)
    ∷ ("not", Keyword.not_word)
    ∷ ("oct", Keyword.oct)
    ∷ ("open", Keyword.open_word)
    ∷ ("opendir", Keyword.opendir)
    ∷ ("or", Keyword.or)
    ∷ ("ord", Keyword.ord)
    ∷ ("our", Keyword.our)
    ∷ ("pack", Keyword.pack)
    ∷ ("package", Keyword.package_word)
    ∷ ("pipe", Keyword.pipe)
    ∷ ("pop", Keyword.pop)
    ∷ ("pos", Keyword.pos)
    ∷ ("print", Keyword.print_word)
    ∷ ("printf", Keyword.printf)
    ∷ ("prototype", Keyword.prototype)
    ∷ ("push", Keyword.push)
    ∷ ("q", Keyword.q)
    ∷ ("qq", Keyword.qq)
    ∷ ("qr", Keyword.qr)
    ∷ ("quotemeta", Keyword.quotemeta)
    ∷ ("qw", Keyword.qw)
    ∷ ("qx", Keyword.qx)
    ∷ ("rand", Keyword.rand)
    ∷ ("read", Keyword.read)
    ∷ ("readdir", Keyword.readdir)
    ∷ ("readline", Keyword.readline)
    ∷ ("readlink", Keyword.readlink)
    ∷ ("readpipe", Keyword.readpipe)
    ∷ ("recv", Keyword.recv)
    ∷ ("redo", Keyword.redo)
    ∷ ("ref", Keyword.ref)
    ∷ ("rename", Keyword.rename)
    ∷ ("require", Keyword.require)
    ∷ ("reset", Keyword.reset)
    ∷ ("return", Keyword.return_word)
    ∷ ("reverse", Keyword.reverse)
    ∷ ("rewinddir", Keyword.rewinddir)
    ∷ ("rindex", Keyword.rindex)
    ∷ ("rmdir", Keyword.rmdir)
    ∷ ("s", Keyword.s)
    ∷ ("say", Keyword.say)
    ∷ ("scalar", Keyword.scalar)
    ∷ ("seek", Keyword.seek)
    ∷ ("seekdir", Keyword.seekdir)
    ∷ ("select", Keyword.select)
    ∷ ("semctl", Keyword.semctl)
    ∷ ("semget", Keyword.semget)
    ∷ ("semop", Keyword.semop)
    ∷ ("send", Keyword.send)
    ∷ ("setgrent", Keyword.setgrent)
    ∷ ("sethostent", Keyword.sethostent)
    ∷ ("setnetent", Keyword.setnetent)
    ∷ ("setpgrp", Keyword.setpgrp)
    ∷ ("setpriority", Keyword.setpriority)
    ∷ ("setprotoent", Keyword.setprotoent)
    ∷ ("setpwent", Keyword.setpwent)
    ∷ ("setservent", Keyword.setservent)
    ∷ ("setsockopt", Keyword.setsockopt)
    ∷ ("shift", Keyword.shift)
    ∷ ("shmctl", Keyword.shmctl)
    ∷ ("shmget", Keyword.shmget)
    ∷ ("shmread", Keyword.shmread)
    ∷ ("shmwrite", Keyword.shmwrite)
    ∷ ("shutdown", Keyword.shutdown)
    ∷ ("sin", Keyword.sin)
    ∷ ("sleep", Keyword.sleep)
    ∷ ("socket", Keyword.socket)
    ∷ ("socketpair", Keyword.socketpair)
    ∷ ("sort", Keyword.sort)
    ∷ ("splice", Keyword.splice)
    ∷ ("split", Keyword.split)
    ∷ ("sprintf", Keyword.sprintf)
    ∷ ("sqrt", Keyword.sqrt)
    ∷ ("srand", Keyword.srand)
    ∷ ("stat", Keyword.stat)
    ∷ ("state", Keyword.state)
    ∷ ("study", Keyword.study)
    ∷ ("sub", Keyword.sub_word)
    ∷ ("substr", Keyword.substr)
    ∷ ("symlink", Keyword.symlink)
    ∷ ("syscall", Keyword.syscall)
    ∷ ("sysopen", Keyword.sysopen)
    ∷ ("sysread", Keyword.sysread)
    ∷ ("sysseek", Keyword.sysseek)
    ∷ ("system", Keyword.system)
    ∷ ("syswrite", Keyword.syswrite)
    ∷ ("tell", Keyword.tell)
    ∷ ("telldir", Keyword.telldir)
    ∷ ("tie", Keyword.tie)
    ∷ ("tied", Keyword.tied)
    ∷ ("time", Keyword.time)
    ∷ ("times", Keyword.times)
    ∷ ("tr", Keyword.tr)
    ∷ ("try", Keyword.try)
    ∷ ("truncate", Keyword.truncate)
    ∷ ("uc", Keyword.uc)
    ∷ ("ucfirst", Keyword.ucfirst)
    ∷ ("umask", Keyword.umask)
    ∷ ("undef", Keyword.undef)
    ∷ ("unless", Keyword.unless)
    ∷ ("unlink", Keyword.unlink)
    ∷ ("unpack", Keyword.unpack)
    ∷ ("unshift", Keyword.unshift)
    ∷ ("untie", Keyword.untie)
    ∷ ("until", Keyword.until)
    ∷ ("use", Keyword.use_word)
    ∷ ("utime", Keyword.utime)
    ∷ ("values", Keyword.values)
    ∷ ("vec", Keyword.vec)
    ∷ ("wait", Keyword.wait)
    ∷ ("waitpid", Keyword.waitpid)
    ∷ ("wantarray", Keyword.wantarray)
    ∷ ("warn", Keyword.warn)
    ∷ ("when", Keyword.when)
    ∷ ("while", Keyword.while)
    ∷ ("write", Keyword.write)
    ∷ ("x", Keyword.x)
    ∷ ("xor", Keyword.xor)
    ∷ ("y", Keyword.y)
    ∷ []

-- `KEYWORDS.get`
unfoldable pub get_keyword : String → Option Keyword
get_keyword s = match_arms str_eq keyword_arms s

-- The feature is on, or none is asked for.
unfoldable pub enabled : Option Features → Features → Bool
enabled none features = true
enabled (some f) features = contains features f

unfoldable pub lookup_keyword : String → Features → Option Keyword
lookup_keyword s features = elim (get_keyword s) [
  | none ↦ none
  | some kw ↦ elim (enabled (row kw).feature features) [ true ↦ some kw | false ↦ none ]
]

unfoldable pub is_quote : Syntax → Bool
is_quote quote = true
is_quote _ = false

unfoldable pub is_quote_keyword : Keyword → Bool
is_quote_keyword kw = is_quote (row kw).syntax

unfoldable pub is_quote_keyword_str : String → Bool
is_quote_keyword_str s = elim (get_keyword s) [ none ↦ false | some kw ↦ is_quote_keyword kw ]

named_unary_syntax : Syntax → Bool
named_unary_syntax named_unary = true
named_unary_syntax named_unary_defined_or = true
named_unary_syntax _ = false

unfoldable pub is_named_unary : Keyword → Bool
unfolding named_unary_syntax
is_named_unary kw = named_unary_syntax (row kw).syntax

nullary_syntax : Syntax → Bool
nullary_syntax nullary = true
nullary_syntax _ = false

unfoldable pub is_nullary : Keyword → Bool
unfolding nullary_syntax
is_nullary kw = nullary_syntax (row kw).syntax

defined_or_syntax : Syntax → Bool
defined_or_syntax named_unary_defined_or = true
defined_or_syntax _ = false

unfoldable pub prefers_defined_or : Keyword → Bool
unfolding defined_or_syntax
prefers_defined_or kw = defined_or_syntax (row kw).syntax

unfoldable pub list_syntax : Syntax → Bool
list_syntax list_op = true
list_syntax list_op_indirect = true
list_syntax list_op_no_call_form = true
list_syntax _ = false

unfoldable pub is_list_op : Keyword → Bool
unfolding list_syntax
is_list_op kw = list_syntax (row kw).syntax

statement_syntax : Syntax → Bool
statement_syntax statement = true
statement_syntax _ = false

unfoldable pub is_statement_keyword : Keyword → Bool
unfolding statement_syntax
is_statement_keyword kw = statement_syntax (row kw).syntax

strong_row : Strength → Bool
strong_row strong = true
strong_row weak = false

unfoldable pub is_strong : Keyword → Bool
unfolding strong_row
is_strong kw = strong_row (row kw).strength

unfoldable pub is_weak : Keyword → Bool
unfolding is_strong
is_weak kw = not (is_strong kw)

unfoldable pub is_block_list_op : Keyword → Bool
is_block_list_op Keyword.sort = true
is_block_list_op Keyword.map_word = true
is_block_list_op Keyword.grep = true
is_block_list_op Keyword.any = true
is_block_list_op Keyword.all = true
is_block_list_op _ = false

unfoldable pub is_print_op : Keyword → Bool
is_print_op Keyword.print_word = true
is_print_op Keyword.say = true
is_print_op Keyword.printf = true
is_print_op _ = false
