-- ===== src/Protocol/Commands.antt =====
-- Both sides choose a branch by the first letters of the request (clientfunctions.c: `main`;
-- NamingServerModule.c: `handleClientInput`).
use nfs_mock.Base.{◌≡◌, Bytes, arith}
use nfs_mock.NamingServer.Dispatch
use nfs_mock.Client.Commands
use nfs_mock.Client.Commands.{read, write, get_size, list_all, invalid}
use nfs_mock.NamingServer.Dispatch.{locate, listing, unknown}

-- the naming server's branch for each of the client's
unfoldable pub served_by : Commands.Command → Dispatch.Command
served_by read = locate
served_by write = locate
served_by get_size = locate
served_by Commands.create = Dispatch.create
served_by Commands.delete = Dispatch.delete
served_by Commands.copy = Dispatch.copy
served_by list_all = listing
served_by invalid = unknown

-- The naming server takes the branch that serves the client's, for every request.
pub commands_agree :
    (request : Bytes) → Dispatch.command_of request ≡ served_by (Commands.command_of request)
unfolding Dispatch.command_of Commands.command_of served_by
commands_agree request = ground arith
