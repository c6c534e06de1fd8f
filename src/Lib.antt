-- ===== src/Lib.antt =====
-- Libretto provisions virtual machines on several providers behind one interface
-- (virtualmachine/virtualmachine.go). Each provider is a package under virtualmachine with a VM
-- struct, operations on it, and helpers that poll the provider until a machine or a disk is in some
-- state.
--
-- Go.antt holds what the models share. A method is an action on a World: the VM's struct and the
-- calls sent so far, the last one first (Go/Action.antt). It ends in a value, an error or a panic
-- (Go/Result.antt), and what it wrote and sent before an error stays. The dynamic types of errors
-- are in Go/Error.antt. A bounded `for` loop is `retry` (Go/Retry.antt), by recursion on the rounds
-- that are left, so it needs no fuel beyond the bound of the source. Go/Poll says how a loop ends whose
-- rounds decide by the answers of a service alone: in its first round that does not go on, or
-- after all of them. Go/Sends.antt, Go/Keeps.antt, Go/Stays.antt and Go/Yields.antt are rules for what
-- an action sends, for actions that leave the struct as it is, for what else of the struct stays, and
-- for what an action returns. Go/Strings.antt is the package strings with the tests that
-- regular expressions come to, and Go/Reach.antt the states that goroutines reach in any order.
-- Machine.antt has the states, errors and WrapErrors of virtualmachine/virtualmachine.go,
-- and Util.antt has the random choices and GetVMIPs of util/util.go, with the VM's GetIPs and the
-- generator as parameters.
--
-- Ssh.antt is ssh/ssh.go: the credentials and options, SSHClient with Connect, Disconnect and
-- WaitForSSH (Ssh/Client.antt), keepAlive beside Disconnect as a step relation
-- (Ssh/KeepAlive.antt), and the first line of a transfer (Ssh/Transfer.antt). The library
-- golang.org/x/crypto/ssh and the clock are a parameter. The loop of WaitForSSH has no bound of its
-- own, so its rounds are fuel: one more than the pauses of five seconds that the longest wait has,
-- which is enough by its theorem in Ssh/Client/Waits.antt. A wait is not negative.
-- Sessions.antt is GetSSH in the two forms that the providers have, with or without that wait; a
-- provider's own GetSSH is in its Session.antt.
--
-- Aws.antt is virtualmachine/aws:
--   Aws/Types.antt      the structs of vm.go
--   Aws/Api.antt        the parts of the AWS SDK that the package uses, as a parameter: a record of
--                       functions from the calls so far to an answer, so that it may answer the same
--                       call differently each time. Nothing is assumed of the answers.
--   Aws/Service.antt    getService and GetInstanceStatus of util.go
--   Aws/Wait            wait.go: waitUntilReady (Ready), waitUntilState (State) and
--                       waitUntilVolumeState (Volume), which poll 10, 60 and 120 times as the source
--                       says
--   Aws/Launch.antt     instanceInfo of util.go
--   Aws/Lifecycle.antt  Provision, Destroy, Halt, Start, GetIPs, GetState, the tags and key pairs
--   Aws/Volumes.antt    CreateVolume, AttachVolume, DetachVolume, DeleteVolume
--   Aws/Rules.antt      the rules of security groups and their conversions
--   Aws/Listing.antt    the operations that list what a region has, images in Aws/Images.antt
--   Aws/Keys.antt       ValidCredentials, UploadKeyPair, DeleteKeyPair
--   Aws/Tests.antt      runs against a small EC2
--
-- Openstack.antt is virtualmachine/openstack:
--   Openstack/Types.antt    the structs, errors and constants of vm.go, and the states of
--                           virtualmachine/virtualmachine.go that it uses
--   Openstack/Api.antt      the parts of gophercloud that it uses, a parameter as for EC2
--   Openstack/Clients.antt  the clients of util.go
--   Openstack/Servers.antt  getServer, waitUntil and deleteVM of util.go, GetState and Halt of vm.go
--   Openstack/Volumes.antt  the operations on volumes of util.go
--   Openstack/Destroy.antt  Destroy of vm.go
--   Openstack/Images.antt   the search for an image by its name, and the default structs, of util.go
--   Openstack/Tests.antt    runs against a small cloud
-- Its loops poll at most 900 times, as the source says.
--
-- Exoscale.antt is virtualmachine/exoscale: the structs (Types), the parts of egoscale that it uses, a
-- parameter (Api), the lookups of ids of util.go (Lookups), the operations of vm.go (Machines), and
-- WaitVMCreation, whose goroutine and select are a step relation on a state with their two channels
-- (Creation).
--
-- Digitalocean.antt is virtualmachine/digitalocean: the structs (Types), the requests, with net/http
-- and JSON as a parameter (Http), the operations (Droplets), and how they agree (Agreement).
--
-- Virtualbox.antt is virtualmachine/virtualbox: the structs (Types), what is read from the output of
-- VBoxManage (Readings, Addresses), the operations (Machines), the network cards and Provision up to
-- its wait (Nics), and waitUntilReady, whose goroutine, loop and timer are a step relation (Waiting).
-- A run of VBoxManage is a parameter. The fuel for the matches of a regular expression is the length
-- of the text, and each match is longer than one byte.
--
-- Gcp.antt is virtualmachine/gcp: the structs (Types), the parts of Google's packages that it uses, a
-- parameter (Api), getService and the wait for an operation, which polls 180 times as the source says
-- (Service), the disks (Disks), the firewall rules (Firewalls), the instance and images (Instances),
-- and what lists the resources of a project (Listing). A method of vm.go that only gets the service
-- and calls util.go is one definition with what it calls.
--
-- Vmrun.antt is virtualmachine/vmrun: the structs, with runs of vmrun and files as a parameter (Types),
-- and the operations but for Provision and its wait (Machines).
--
-- Vsphere.antt is virtualmachine/vsphere, with govmomi, files and net/http as a parameter (Types, Api):
-- the paths of the inventory (Paths), sessions and lookups by name (Session), the search for machines
-- (Search), for hosts and clusters (Mobs), the choice of a host (Hosts), disks (Devices) and network
-- cards (Networks, Changes), the power operations (Power), Destroy (Destroy), clones (Reconfigure, Clone),
-- templates (Templates), custom fields (Fields), the disks of a machine (Disks) and Provision (Provision). The loop of
-- searchTree has one round for each name of the path; findMob has a depth, which is enough where it
-- is above that of the inventory; the loop of Destroy, which has no bound, has rounds.
--
-- A pointer is an option, and reading through nil panics. A map that is ranged over is its entries
-- in the order of one visit. The vendored SDK and the Go version of the project date from before
-- Go 1.22, so a `range` loop has one variable, and a pointer to it reads what the last round left.
-- Numbers are unbounded where the source's are constants or only passed on.
--
-- Not modelled: network connections and the formats on them; the S3 buckets of
-- virtualmachine/aws/objectstore.go; Provision, Start, GetIPs and the image upload of
-- virtualmachine/openstack; the goroutines of the transfers of ssh/ssh.go; Provision and the wait of
-- virtualmachine/vmrun; the listings of virtualmachine/vsphere (GetVmList, GetDatastores,
-- getVmsInFolder, getSharedDatastoreInCluster), its GetVMInfo and its progress reader, with the
-- download and the upload of an image as parameters; virtualmachine/azure and virtualmachine/mockprovider.
pub mod Aws
pub mod Base
pub mod Digitalocean
pub mod Exoscale
pub mod Gcp
pub mod Go
pub mod Machine
pub mod Openstack
pub mod Sessions
pub mod Ssh
pub mod Util
pub mod Virtualbox
pub mod Vmrun
pub mod Vsphere
