-- ===== src/Keyword/Rows.antt =====
-- The keyword table of parser/src/keyword.rs, a row for each keyword.
use perloxide.Prelude.{Option, none, some, String}
use perloxide.Pragma.Features.{
  Features, class as class_feature, current_sub as current_sub_feature, defer as defer_feature,
  evalbytes as evalbytes_feature, fc as fc_feature, isa as isa_feature,
  keyword_all as keyword_all_feature, keyword_any as keyword_any_feature, say as say_feature,
  state as state_feature, switch as switch_feature, try as try_feature,
}
use perloxide.Keyword.Kinds.{
  Keyword, Strength, strong, weak, Syntax, nullary, named_unary, named_unary_defined_or, list_op,
  list_op_indirect, list_op_no_call_form, block_list_op, loop_exit, operator, quote, statement,
  special,
}

pub record Row : Type 0 where
  pub name : String
  pub strength : Strength
  pub feature : Option Features
  pub syntax : Syntax

-- A row without a feature, and one with.
abbrev plain : String → Strength → Syntax → Row
plain n s x = record { name = n; strength = s; feature = none; syntax = x }

abbrev gated : String → Strength → Features → Syntax → Row
gated n s f x = record { name = n; strength = s; feature = some f; syntax = x }

unfoldable pub row : Keyword → Row
row Keyword.dunder_file = plain "__FILE__" weak nullary
row Keyword.dunder_line = plain "__LINE__" weak nullary
row Keyword.dunder_package = plain "__PACKAGE__" weak nullary
row Keyword.dunder_class = gated "__CLASS__" weak class_feature nullary
row Keyword.dunder_data = plain "__DATA__" strong special
row Keyword.dunder_end = plain "__END__" strong special
row Keyword.dunder_sub = gated "__SUB__" weak current_sub_feature nullary
row Keyword.adjust_phase = gated "ADJUST" strong class_feature statement
row Keyword.autoload_phase = plain "AUTOLOAD" strong statement
row Keyword.begin_phase = plain "BEGIN" strong statement
row Keyword.unitcheck_phase = plain "UNITCHECK" strong statement
row Keyword.destroy_phase = plain "DESTROY" strong statement
row Keyword.end_phase = plain "END" strong statement
row Keyword.init_phase = plain "INIT" strong statement
row Keyword.check_phase = plain "CHECK" strong statement
row Keyword.abs = plain "abs" weak named_unary
row Keyword.accept = plain "accept" weak list_op
row Keyword.alarm = plain "alarm" weak named_unary
row Keyword.all = gated "all" weak keyword_all_feature block_list_op
row Keyword.and = plain "and" weak operator
row Keyword.any = gated "any" weak keyword_any_feature block_list_op
row Keyword.atan2 = plain "atan2" weak list_op
row Keyword.bind = plain "bind" weak list_op
row Keyword.binmode = plain "binmode" weak list_op
row Keyword.bless = plain "bless" weak list_op
row Keyword.break = gated "break" weak switch_feature nullary
row Keyword.caller = plain "caller" weak named_unary
row Keyword.catch = gated "catch" strong try_feature special
row Keyword.chdir = plain "chdir" weak named_unary
row Keyword.chmod = plain "chmod" weak list_op
row Keyword.chomp = plain "chomp" weak named_unary
row Keyword.chop = plain "chop" weak named_unary
row Keyword.chown = plain "chown" weak list_op
row Keyword.chr = plain "chr" weak named_unary
row Keyword.chroot = plain "chroot" weak named_unary
row Keyword.class = gated "class" weak class_feature statement
row Keyword.close = plain "close" weak named_unary
row Keyword.closedir = plain "closedir" weak named_unary
row Keyword.cmp = plain "cmp" weak operator
row Keyword.connect = plain "connect" weak list_op
row Keyword.continue = plain "continue" weak special
row Keyword.cos = plain "cos" weak named_unary
row Keyword.crypt = plain "crypt" weak list_op
row Keyword.dbmclose = plain "dbmclose" weak named_unary
row Keyword.dbmopen = plain "dbmopen" weak list_op
row Keyword.default = gated "default" strong switch_feature statement
row Keyword.defer = gated "defer" strong defer_feature statement
row Keyword.defined = plain "defined" strong named_unary
row Keyword.delete = plain "delete" strong named_unary
row Keyword.die = plain "die" weak named_unary
row Keyword.do_word = plain "do" strong special
row Keyword.dump = plain "dump" weak loop_exit
row Keyword.each = plain "each" weak list_op
row Keyword.else_word = plain "else" strong special
row Keyword.elsif = plain "elsif" strong special
row Keyword.elseif = plain "elseif" strong special
row Keyword.endgrent = plain "endgrent" weak nullary
row Keyword.endhostent = plain "endhostent" weak nullary
row Keyword.endnetent = plain "endnetent" weak nullary
row Keyword.endprotoent = plain "endprotoent" weak nullary
row Keyword.endpwent = plain "endpwent" weak nullary
row Keyword.endservent = plain "endservent" weak nullary
row Keyword.eof = plain "eof" weak named_unary
row Keyword.eq = plain "eq" weak operator
row Keyword.eval = plain "eval" strong special
row Keyword.evalbytes = gated "evalbytes" weak evalbytes_feature named_unary
row Keyword.exec = plain "exec" weak list_op_indirect
row Keyword.exists_word = plain "exists" strong named_unary
row Keyword.exit = plain "exit" weak named_unary
row Keyword.exp = plain "exp" weak named_unary
row Keyword.fc = gated "fc" weak fc_feature named_unary
row Keyword.fcntl = plain "fcntl" weak list_op
row Keyword.field = gated "field" weak class_feature statement
row Keyword.fileno = plain "fileno" weak named_unary
row Keyword.finally = gated "finally" strong try_feature special
row Keyword.flock = plain "flock" weak list_op
row Keyword.for = plain "for" strong statement
row Keyword.foreach = plain "foreach" strong statement
row Keyword.fork = plain "fork" weak nullary
row Keyword.format = plain "format" strong statement
row Keyword.formline = plain "formline" weak list_op
row Keyword.ge = plain "ge" weak operator
row Keyword.getc = plain "getc" weak named_unary_defined_or
row Keyword.getgrent = plain "getgrent" weak nullary
row Keyword.getgrgid = plain "getgrgid" weak named_unary
row Keyword.getgrnam = plain "getgrnam" weak named_unary
row Keyword.gethostbyaddr = plain "gethostbyaddr" weak list_op
row Keyword.gethostbyname = plain "gethostbyname" weak named_unary
row Keyword.gethostent = plain "gethostent" weak nullary
row Keyword.getlogin = plain "getlogin" weak nullary
row Keyword.getnetbyaddr = plain "getnetbyaddr" weak list_op
row Keyword.getnetbyname = plain "getnetbyname" weak named_unary
row Keyword.getnetent = plain "getnetent" weak nullary
row Keyword.getpeername = plain "getpeername" weak named_unary
row Keyword.getpgrp = plain "getpgrp" weak named_unary
row Keyword.getppid = plain "getppid" weak nullary
row Keyword.getpriority = plain "getpriority" weak list_op
row Keyword.getprotobyname = plain "getprotobyname" weak named_unary
row Keyword.getprotobynumber = plain "getprotobynumber" weak named_unary
row Keyword.getprotoent = plain "getprotoent" weak nullary
row Keyword.getpwent = plain "getpwent" weak nullary
row Keyword.getpwnam = plain "getpwnam" weak named_unary
row Keyword.getpwuid = plain "getpwuid" weak named_unary
row Keyword.getservbyname = plain "getservbyname" weak list_op
row Keyword.getservbyport = plain "getservbyport" weak list_op
row Keyword.getservent = plain "getservent" weak nullary
row Keyword.getsockname = plain "getsockname" weak named_unary
row Keyword.getsockopt = plain "getsockopt" weak list_op
row Keyword.given = gated "given" strong switch_feature statement
row Keyword.glob = plain "glob" strong list_op
row Keyword.gmtime = plain "gmtime" weak named_unary
row Keyword.goto = plain "goto" strong loop_exit
row Keyword.grep = plain "grep" strong list_op_indirect
row Keyword.gt = plain "gt" weak operator
row Keyword.hex = plain "hex" weak named_unary
row Keyword.if_word = plain "if" strong statement
row Keyword.index = plain "index" weak list_op
row Keyword.int = plain "int" weak named_unary
row Keyword.ioctl = plain "ioctl" weak list_op
row Keyword.isa = gated "isa" weak isa_feature operator
row Keyword.join = plain "join" weak list_op
row Keyword.keys = plain "keys" weak list_op
row Keyword.kill = plain "kill" weak list_op
row Keyword.last_word = plain "last" strong loop_exit
row Keyword.lc = plain "lc" weak named_unary
row Keyword.lcfirst = plain "lcfirst" weak named_unary
row Keyword.le = plain "le" weak operator
row Keyword.length = plain "length" weak named_unary
row Keyword.link = plain "link" weak list_op
row Keyword.listen = plain "listen" weak list_op
row Keyword.local = plain "local" strong special
row Keyword.localtime = plain "localtime" weak named_unary
row Keyword.lock = plain "lock" weak named_unary
row Keyword.log = plain "log" weak named_unary
row Keyword.lstat = plain "lstat" weak named_unary
row Keyword.lt = plain "lt" weak operator
row Keyword.m = plain "m" strong quote
row Keyword.map_word = plain "map" strong list_op_indirect
row Keyword.method = gated "method" weak class_feature statement
row Keyword.mkdir = plain "mkdir" weak list_op
row Keyword.msgctl = plain "msgctl" weak list_op
row Keyword.msgget = plain "msgget" weak list_op
row Keyword.msgrcv = plain "msgrcv" weak list_op
row Keyword.msgsnd = plain "msgsnd" weak list_op
row Keyword.my = plain "my" strong statement
row Keyword.ne = plain "ne" weak operator
row Keyword.next = plain "next" strong loop_exit
row Keyword.no = plain "no" strong statement
row Keyword.not_word = plain "not" weak special
row Keyword.oct = plain "oct" weak named_unary
row Keyword.open_word = plain "open" weak list_op
row Keyword.opendir = plain "opendir" weak list_op
row Keyword.or = plain "or" weak operator
row Keyword.ord = plain "ord" weak named_unary
row Keyword.our = plain "our" strong statement
row Keyword.pack = plain "pack" weak list_op
row Keyword.package_word = plain "package" strong statement
row Keyword.pipe = plain "pipe" weak list_op
row Keyword.pop = plain "pop" weak named_unary_defined_or
row Keyword.pos = plain "pos" strong named_unary_defined_or
row Keyword.print_word = plain "print" strong list_op_indirect
row Keyword.printf = plain "printf" strong list_op_indirect
row Keyword.prototype = plain "prototype" strong named_unary
row Keyword.push = plain "push" weak list_op
row Keyword.q = plain "q" strong quote
row Keyword.qq = plain "qq" strong quote
row Keyword.qr = plain "qr" strong quote
row Keyword.quotemeta = plain "quotemeta" weak named_unary
row Keyword.qw = plain "qw" strong quote
row Keyword.qx = plain "qx" strong quote
row Keyword.rand = plain "rand" weak named_unary
row Keyword.read = plain "read" weak list_op
row Keyword.readdir = plain "readdir" weak named_unary
row Keyword.readline = plain "readline" weak named_unary_defined_or
row Keyword.readlink = plain "readlink" weak named_unary_defined_or
row Keyword.readpipe = plain "readpipe" weak named_unary
row Keyword.recv = plain "recv" weak list_op
row Keyword.redo = plain "redo" strong loop_exit
row Keyword.ref = plain "ref" weak named_unary
row Keyword.rename = plain "rename" weak list_op
row Keyword.require = plain "require" strong named_unary
row Keyword.reset = plain "reset" weak named_unary
row Keyword.return_word = plain "return" strong list_op_no_call_form
row Keyword.reverse = plain "reverse" weak list_op
row Keyword.rewinddir = plain "rewinddir" weak named_unary
row Keyword.rindex = plain "rindex" weak list_op
row Keyword.rmdir = plain "rmdir" weak named_unary
row Keyword.s = plain "s" strong quote
row Keyword.say = gated "say" strong say_feature list_op_indirect
row Keyword.scalar = plain "scalar" strong named_unary
row Keyword.seek = plain "seek" weak list_op
row Keyword.seekdir = plain "seekdir" weak list_op
row Keyword.select = plain "select" weak list_op
row Keyword.semctl = plain "semctl" weak list_op
row Keyword.semget = plain "semget" weak list_op
row Keyword.semop = plain "semop" weak list_op
row Keyword.send = plain "send" weak list_op
row Keyword.setgrent = plain "setgrent" weak nullary
row Keyword.sethostent = plain "sethostent" weak named_unary
row Keyword.setnetent = plain "setnetent" weak named_unary
row Keyword.setpgrp = plain "setpgrp" weak list_op
row Keyword.setpriority = plain "setpriority" weak list_op
row Keyword.setprotoent = plain "setprotoent" weak named_unary
row Keyword.setpwent = plain "setpwent" weak nullary
row Keyword.setservent = plain "setservent" weak named_unary
row Keyword.setsockopt = plain "setsockopt" weak list_op
row Keyword.shift = plain "shift" weak named_unary_defined_or
row Keyword.shmctl = plain "shmctl" weak list_op
row Keyword.shmget = plain "shmget" weak list_op
row Keyword.shmread = plain "shmread" weak list_op
row Keyword.shmwrite = plain "shmwrite" weak list_op
row Keyword.shutdown = plain "shutdown" weak list_op
row Keyword.sin = plain "sin" weak named_unary
row Keyword.sleep = plain "sleep" weak named_unary
row Keyword.socket = plain "socket" weak list_op
row Keyword.socketpair = plain "socketpair" weak list_op
row Keyword.sort = plain "sort" strong list_op_indirect
row Keyword.splice = plain "splice" weak list_op
row Keyword.split = plain "split" strong list_op
row Keyword.sprintf = plain "sprintf" weak list_op
row Keyword.sqrt = plain "sqrt" weak named_unary
row Keyword.srand = plain "srand" weak named_unary
row Keyword.stat = plain "stat" weak named_unary
row Keyword.state = gated "state" strong state_feature statement
row Keyword.study = plain "study" strong named_unary
row Keyword.sub_word = plain "sub" strong statement
row Keyword.substr = plain "substr" weak list_op
row Keyword.symlink = plain "symlink" weak list_op
row Keyword.syscall = plain "syscall" weak list_op
row Keyword.sysopen = plain "sysopen" weak list_op
row Keyword.sysread = plain "sysread" weak list_op
row Keyword.sysseek = plain "sysseek" weak list_op
row Keyword.system = plain "system" weak list_op_indirect
row Keyword.syswrite = plain "syswrite" weak list_op
row Keyword.tell = plain "tell" weak list_op
row Keyword.telldir = plain "telldir" weak named_unary
row Keyword.tie = plain "tie" weak list_op
row Keyword.tied = plain "tied" weak named_unary
row Keyword.time = plain "time" weak nullary
row Keyword.times = plain "times" weak nullary
row Keyword.tr = plain "tr" strong quote
row Keyword.try = gated "try" strong try_feature statement
row Keyword.truncate = plain "truncate" weak list_op
row Keyword.uc = plain "uc" weak named_unary
row Keyword.ucfirst = plain "ucfirst" weak named_unary
row Keyword.umask = plain "umask" weak named_unary_defined_or
row Keyword.undef = plain "undef" strong named_unary_defined_or
row Keyword.unless = plain "unless" strong statement
row Keyword.unlink = plain "unlink" weak list_op
row Keyword.unpack = plain "unpack" weak list_op
row Keyword.unshift = plain "unshift" weak list_op
row Keyword.untie = plain "untie" weak list_op
row Keyword.until = plain "until" strong statement
row Keyword.use_word = plain "use" strong statement
row Keyword.utime = plain "utime" weak list_op
row Keyword.values = plain "values" weak list_op
row Keyword.vec = plain "vec" weak list_op
row Keyword.wait = plain "wait" weak nullary
row Keyword.waitpid = plain "waitpid" weak list_op
row Keyword.wantarray = plain "wantarray" weak nullary
row Keyword.warn = plain "warn" weak named_unary
row Keyword.when = gated "when" strong switch_feature statement
row Keyword.while = plain "while" strong statement
row Keyword.write = plain "write" weak list_op
row Keyword.x = plain "x" weak operator
row Keyword.xor = plain "xor" weak operator
row Keyword.y = plain "y" strong quote
